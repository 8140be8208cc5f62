-- ===== src/Context/Table.antt =====
-- skynet-src/skynet_handle.c as skynet-src/skynet_server.c uses it: what the life of a context needs
-- of the table of handles, and that the table gives it.
use paohuzi_server.Shared.{
  ℕ, ◌*◌, ◌^◌, ◌≤◌, ◌<◌, ◌≡◌, ◌≢◌, refl, Bool, true, false, Option, none, some, arith, sym, ◌∙◌, ap,
  ◌==◌, ==_ne, ==_refl, if◌then◌else◌, ◌>>=◌, update, update_same, update_ne, ℕ_discrete,
}
use paohuzi_server.Handle.{HandleStorage, grab, register, retire}
use paohuzi_server.Handle.Slots.{IsStorage}
use paohuzi_server.Handle.Register.{Registered, register_lem, grab_placed, grab_handle}
use paohuzi_server.Handle.Retire.{retire_lem}

-- A table of services: `has t a` says that the context at `a` is in it, and `handle_of t a` is the
-- handle that the context holds.
pub record HandleTable : Type 1 where
  pub T : Type 0
  pub IsValid : T → Type 0
  pub HasRoom : T → Type 0
  pub has : T → ℕ → Bool
  pub handle_of : T → ℕ → ℕ
  pub find : T → ℕ → Option ℕ
  pub enter : T → ℕ → Option (T × ℕ)
  pub leave : T → ℕ → T × Option ℕ
  -- What `find` finds is in the table, under that handle.
  pub find_has :
      (t : T) (h a : ℕ) → IsValid t → find t h ≡ some a → (has t a ≡ true) × (handle_of t a ≡ h)
  -- `enter` adds a context that is not in the table, and no other.
  pub enter_has :
      (t : T) (a : ℕ)
      → IsValid t
      → HasRoom t
      → has t a ≡ false
      → (t' : T) × (h : ℕ) × (enter t a ≡ some (t', h))
        × IsValid t'
        × (has t' a ≡ true)
        × (handle_of t' a ≡ h)
        × ((b : ℕ) → b ≢ a → (has t' b ≡ has t b) × (handle_of t' b ≡ handle_of t b))
  -- `leave` gives what `find` finds, and takes that out of the table, and no other.
  pub leave_find : (t : T) (h : ℕ) → IsValid t → IsValid (leave t h).0 × ((leave t h).1 ≡ find t h)
  pub leave_handle_of : (t : T) (h a : ℕ) → handle_of (leave t h).0 a ≡ handle_of t a
  pub leave_has :
      (t : T) (h a : ℕ)
      → IsValid t
      → find t h ≡ some a
      → (has (leave t h).0 a ≡ false) × ((b : ℕ) → b ≢ a → has (leave t h).0 b ≡ has t b)

-- The handles that the contexts hold, and the storage.
abbrev pub Services : Type 0
Services = (ℕ → ℕ) × HandleStorage

abbrev is_some_of : ℕ → Option ℕ → Bool
is_some_of a none = false
is_some_of a (some b) = b == a

abbrev pub has_service : Services → ℕ → Bool
has_service (f, s) a = is_some_of a (grab f s (f a))

-- `skynet_handle_register`, after which the caller writes the handle into the context
unfoldable pub register_service : Services → ℕ → Option (Services × ℕ)
register_service (f, s) a = register f s a >>= λ r. some ((update f a r.1, r.0), r.1)

-- `skynet_handle_retire`, up to its release of the context
unfoldable pub retire_service : Services → ℕ → Services × Option ℕ
retire_service (f, s) h = let r = retire f s h in ((f, r.0), r.1)

abbrev pub IsServices : Services → Type 0
IsServices (f, s) = IsStorage f s

abbrev pub CanDouble : Services → Type 0
CanDouble (f, s) = s.slot_size * 2 ≤ 2 ^ 24

is_some_of-some : (a : ℕ) (o : Option ℕ) → is_some_of a o ≡ true → o ≡ some a
is_some_of-some a none h = cc
is_some_of-some a (some b) h = ground (arith, h)

is_some_of_ne : (a : ℕ) (o : Option ℕ) → o ≢ some a → is_some_of a o ≡ false
is_some_of_ne a none h = refl
is_some_of_ne a (some b) h = ground (arith, h)

found_again : (a : ℕ) {o : Option ℕ} → o ≡ some a → is_some_of a o ≡ true
found_again a e = rw (e, ==_refl a) refl

module _ {f : ℕ → ℕ} {s : HandleStorage} (v : IsStorage f s) where
  pub has-grab : (h a : ℕ) → grab f s h ≡ some a → has_service (f, s) a ≡ true
  has-grab h a e = found_again a (ap (grab f s) (grab_handle f s h e) ∙ e)

  unplaced : (a : ℕ) → has_service (f, s) a ≡ false → (i : ℕ) → i < s.slot_size → s.slot i ≢ some a
  unplaced a out i lt at =
      let e : has_service (f, s) a ≡ true = found_again a (grab_placed v i a lt at) in
      ground (arith, e, out)

  Registered-has :
      (a h : ℕ) {s' : HandleStorage} (r : Registered f s a h s') (b : ℕ)
      → b ≢ a
      → has_service (update f a h, s') b ≡ has_service (f, s) b
  Registered-has a h {s'} r b ne =
      let same : update f a h b ≡ f b = update_ne f a b h (λ e. ne (sym e)) in
      let seen : grab (update f a h) s' (update f a h b)
          ≡ (if h == f b then some a else grab f s (f b)) =
        ap (grab (update f a h) s') same ∙ r.table (f b) in
      elim (ℕ_discrete h (f b)) [
        | no differ ↦ ap (is_some_of b) (seen ∙ rw (==_ne h (f b) differ) refl)
        | yes e ↦
            let t : (h == f b) ≡ true = ground arith in
            let here : grab (update f a h) s' (update f a h b) ≡ some a = seen ∙ rw t refl in
            let fresh : grab f s (f b) ≡ none = ap (grab f s) (sym e) ∙ r.fresh in
            rw (here, fresh) (==_ne a b (λ e. ne (sym e)))
      ]

  pub register_service_lem :
      (a : ℕ)
      → s.slot_size * 2 ≤ 2 ^ 24
      → has_service (f, s) a ≡ false
      → (t' : Services) × (h : ℕ) × (register_service (f, s) a ≡ some (t', h))
        × IsServices t'
        × (has_service t' a ≡ true)
        × (t'.0 a ≡ h)
        × ((b : ℕ) → b ≢ a → (has_service t' b ≡ has_service (f, s) b) × (t'.0 b ≡ f b))
  unfolding register_service
  register_service_lem a room out =
      let (s', h, e, r) = register_lem a v room (unplaced a out) in
      let mine : update f a h a ≡ h = update_same f a a h refl in
      let found : grab (update f a h) s' (update f a h a) ≡ some a =
        ap (grab (update f a h) s') mine ∙ r.table h ∙ rw (==_refl h) refl in
      (
        (update f a h, s'),
        h,
        rw e refl,
        r.valid,
        found_again a found,
        mine,
        λ b ne. (Registered-has a h r b ne, update_ne f a b h (λ e. ne (sym e))),
      )

  pub retire_service_lem :
      (h a : ℕ)
      → grab f s h ≡ some a
      → (has_service (retire_service (f, s) h).0 a ≡ false)
        × ((b : ℕ) → b ≢ a → has_service (retire_service (f, s) h).0 b ≡ has_service (f, s) b)
  unfolding retire_service
  retire_service_lem h a e =
      let r = retire_lem h v in
      let s' : HandleStorage = (retire f s h).0 in
      let mine : f a ≡ h = grab_handle f s h e in
      let out : grab f s' (f a) ≡ none = ap (grab f s') mine ∙ r.table h ∙ rw (==_refl h) refl in
      (
        ap (is_some_of a) out,
        λ b ne. elim (ℕ_discrete h (f b)) [
          | no differ ↦ ap (is_some_of b) (r.table (f b) ∙ rw (==_ne h (f b) differ) refl)
          | yes same ↦
              let t : (h == f b) ≡ true = ground arith in
              let gone : grab f s' (f b) ≡ none = r.table (f b) ∙ rw t refl in
              let other : grab f s (f b) ≡ some a = ap (grab f s) (sym same) ∙ e in
              rw (gone, other) (sym (==_ne a b (λ e. ne (sym e))))
        ],
      )

pub retire_find :
    (t : Services) (h : ℕ)
    → IsServices t
    → IsServices (retire_service t h).0 × ((retire_service t h).1 ≡ grab t.0 t.1 h)
unfolding retire_service
retire_find (f, s) h v = let r = retire_lem h v in (r.valid, r.gone)

pub retire_handle_of : (t : Services) (h a : ℕ) → (retire_service t h).0.0 a ≡ t.0 a
unfolding retire_service
retire_handle_of (f, s) h a = refl

-- The table of skynet-src/skynet_handle.c
abbrev pub handle_table : HandleTable
handle_table = record {
  T = Services;
  IsValid = IsServices;
  HasRoom = CanDouble;
  has = has_service;
  handle_of = λ t. t.0;
  find = λ t. grab t.0 t.1;
  enter = register_service;
  leave = retire_service;
  find_has = λ t h a v e. (has-grab v h a e, grab_handle t.0 t.1 h e);
  enter_has = λ t a v room out. register_service_lem v a room out;
  leave_find = retire_find;
  leave_handle_of = retire_handle_of;
  leave_has = λ t h a v e. retire_service_lem v h a e;
}
