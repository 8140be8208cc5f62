-- ===== src/Netpack/Partial.antt =====
-- lualib-src/lua-netpack.c: the packages cut short, at most one for each socket.
use paohuzi_server.Shared.{
  ℕ, zero, suc, ◌/◌, ◌%◌, ◌^◌, ◌<◌, ◌≡◌, refl, ◌≢◌, Option, none, some, List, [], ◌∷◌, arith, ◌==◌,
  update, update_same, update_ne, length, subst, sym, ◌∙◌, ap, ℕ_discrete, Bool-cases, inl, inr,
}
use paohuzi_server.Shared.Int.{ℤ, pos, negsuc}
use paohuzi_server.Netpack.{
  Netpack, Uncomplete, Queue, hash_fd, unlink_node, find_uncomplete, get_queue, link_node,
  close_uncomplete,
}
use paohuzi_server.Netpack.Ring.{HasPacks, HasPacks-hash}

abbrev pub found : ℕ → List Uncomplete → Option Uncomplete
found fd chain = (unlink_node fd chain).0

abbrev left : ℕ → List Uncomplete → List Uncomplete
left fd chain = (unlink_node fd chain).1

abbrev pub Distinct : List Uncomplete → Type 0
Distinct [] = Unit
Distinct (uc ∷ chain) = (found uc.pack.id chain ≡ none) × Distinct chain

found-left_other :
    (fd g : ℕ) (chain : List Uncomplete) → g ≢ fd → found g (left fd chain) ≡ found g chain
unfolding unlink_node
found-left_other fd g [] ne = refl
found-left_other fd g (uc ∷ chain) ne = ground (arith, found-left_other fd g chain ne)

found-left_none :
    (fd g : ℕ) (chain : List Uncomplete) → found g chain ≡ none → found g (left fd chain) ≡ none
unfolding unlink_node
found-left_none fd g [] h = refl
found-left_none fd g (uc ∷ chain) h = ground (arith, found-left_none fd g chain)

found-left_self :
    (fd : ℕ) (chain : List Uncomplete) → Distinct chain → found fd (left fd chain) ≡ none
unfolding unlink_node
found-left_self fd [] d = refl
found-left_self fd (uc ∷ chain) d = ground (arith, found-left_self fd chain d.1, d.0)

Distinct-left : (fd : ℕ) (chain : List Uncomplete) → Distinct chain → Distinct (left fd chain)
unfolding unlink_node
Distinct-left fd [] d = tt
Distinct-left fd (uc ∷ chain) d = elim (Bool-cases (uc.pack.id == fd)) [
  | inl e ↦
      let here : left fd (uc ∷ chain) ≡ chain = ground (arith, e) in subst Distinct (sym here) d.1
  | inr e ↦
      let later : left fd (uc ∷ chain) ≡ uc ∷ left fd chain = ground (arith, e) in
      subst Distinct (sym later)
        (found-left_none fd uc.pack.id chain d.0, Distinct-left fd chain d.1)
]

pub found-id :
    (fd : ℕ) (chain : List Uncomplete) (uc : Uncomplete)
    → found fd chain ≡ some uc
    → uc.pack.id ≡ fd
unfolding unlink_node
found-id fd [] uc h = absurd (ground arith)
found-id fd (x ∷ chain) uc h = ground (arith, found-id fd chain uc)

found-first :
    (fd : ℕ) (uc : Uncomplete) (chain : List Uncomplete)
    → uc.pack.id ≡ fd
    → found fd (uc ∷ chain) ≡ some uc
unfolding unlink_node
found-first fd uc chain h = ground (arith, h)

found-behind :
    (fd : ℕ) (uc : Uncomplete) (chain : List Uncomplete)
    → uc.pack.id ≢ fd
    → found fd (uc ∷ chain) ≡ found fd chain
unfolding unlink_node
found-behind fd uc chain h = ground (arith, h)

some_inj : {a b : Uncomplete} → some a ≡ some b → a ≡ b
some_inj h = cc

-- The package of a socket that is cut short, if any.
abbrev pub uc_of : Option Queue → ℕ → Option Uncomplete
uc_of o fd = found fd ((get_queue o).hash (hash_fd fd))

-- What a package cut short holds: a first length byte, or fewer bytes than its length.
abbrev pub IsCut : ℤ → Uncomplete → Type 0
IsCut (negsuc zero) uc = uc.header < 256
IsCut (negsuc (suc k)) uc = ⊥
IsCut (pos n) uc = (n ≡ length uc.pack.buffer) × (n < uc.pack.size) × (uc.pack.size < 2 ^ 16)

-- Its bytes as they came.
abbrev pub raw : ℤ → Uncomplete → List ℕ
raw (negsuc k) uc = uc.header ∷ []
raw (pos n) uc = (uc.pack.size / 256) ∷ (uc.pack.size % 256) ∷ uc.pack.buffer

abbrev pub raw_of : Option Uncomplete → List ℕ
raw_of none = []
raw_of (some uc) = raw uc.read uc

-- The bytes of a socket that wait for more.
abbrev pub partial : Option Queue → ℕ → List ℕ
partial o fd = raw_of (uc_of o fd)

pub record IsValid (o : Option Queue) (ps : List Netpack) : Type 0 where
  pub packs : HasPacks (get_queue o) ps
  pub distinct : (h : ℕ) → Distinct ((get_queue o).hash h)
  pub cut : (fd : ℕ) (uc : Uncomplete) → uc_of o fd ≡ some uc → IsCut uc.read uc

-- `o'` differs from `o` in the package of `fd` that is cut short alone.
abbrev pub SameOthers : ℕ → Option Queue → Option Queue → Type 0
SameOthers fd o o' = (g : ℕ) → g ≢ fd → uc_of o' g ≡ uc_of o g

pub find_lem :
    (o : Option Queue) {ps : List Netpack} (fd : ℕ)
    → IsValid o ps
    → let (got, o') = find_uncomplete o fd in
      (got ≡ uc_of o fd) × IsValid o' ps × (uc_of o' fd ≡ none) × SameOthers fd o o'
unfolding find_uncomplete get_queue unlink_node
find_lem none fd v = (refl, v, refl, λ g ne. refl)
find_lem (some q) {ps} fd v =
    let rest : List Uncomplete = left fd (q.hash (hash_fd fd)) in
    let o' : Option Queue = (find_uncomplete (some q) fd).1 in
    let gone : uc_of o' fd ≡ none =
      rw (update_same q.hash (hash_fd fd) (hash_fd fd) rest refl)
        (found-left_self fd (q.hash (hash_fd fd)) (v.distinct (hash_fd fd))) in
    let others : SameOthers fd (some q) o' = λ g ne. elim (ℕ_discrete (hash_fd fd) (hash_fd g)) [
      | yes e ↦
          ap (found g) (ap (update q.hash (hash_fd fd) rest) (sym e))
          ∙ ap (found g) (update_same q.hash (hash_fd fd) (hash_fd fd) rest refl)
          ∙ found-left_other fd g (q.hash (hash_fd fd)) ne
          ∙ ap (λ h. found g (q.hash h)) e
      | no apart ↦ ap (found g) (update_ne q.hash (hash_fd fd) (hash_fd g) rest apart)
    ] in
    (
      refl,
      record {
        packs = HasPacks-hash refl refl refl refl v.packs;
        distinct = λ h. elim (ℕ_discrete (hash_fd fd) h) [
          | yes e ↦
              subst (λ k. Distinct (update q.hash (hash_fd fd) rest k)) e
                (subst Distinct (sym (update_same q.hash (hash_fd fd) (hash_fd fd) rest refl))
                  (Distinct-left fd (q.hash (hash_fd fd)) (v.distinct (hash_fd fd))))
          | no apart ↦
              subst Distinct (sym (update_ne q.hash (hash_fd fd) h rest apart)) (v.distinct h)
        ];
        cut = λ g uc e. elim (ℕ_discrete g fd) [
          | yes same ↦ absurd (ground (arith, gone, e, ap (uc_of o') same))
          | no ne ↦ v.cut g uc (sym (others g ne) ∙ e)
        ];
      },
      gone,
      others,
    )

pub link_lem :
    (o : Option Queue) {ps : List Netpack} (fd : ℕ) (uc : Uncomplete)
    → IsValid o ps
    → uc_of o fd ≡ none
    → uc.pack.id ≡ fd
    → IsCut uc.read uc
    → let o' = some (link_node (get_queue o) fd uc) in
      IsValid o' ps × (uc_of o' fd ≡ some uc) × SameOthers fd o o'
unfolding link_node get_queue
link_lem o {ps} fd uc v free id good =
    let q : Queue = get_queue o in
    let chain : List Uncomplete = uc ∷ q.hash (hash_fd fd) in
    let o' : Option Queue = some (link_node q fd uc) in
    let linked : uc_of o' fd ≡ some uc =
      ap (found fd) (update_same q.hash (hash_fd fd) (hash_fd fd) chain refl)
      ∙ found-first fd uc (q.hash (hash_fd fd)) id in
    let others : SameOthers fd o o' = λ g ne. elim (ℕ_discrete (hash_fd fd) (hash_fd g)) [
      | yes e ↦
          ap (found g) (ap (update q.hash (hash_fd fd) chain) (sym e))
          ∙ ap (found g) (update_same q.hash (hash_fd fd) (hash_fd fd) chain refl)
          ∙ found-behind g uc (q.hash (hash_fd fd)) (λ same. ne (sym same ∙ id))
          ∙ ap (λ h. found g (q.hash h)) e
      | no apart ↦ ap (found g) (update_ne q.hash (hash_fd fd) (hash_fd g) chain apart)
    ] in
    (
      record {
        packs = HasPacks-hash refl refl refl refl v.packs;
        distinct = λ h. elim (ℕ_discrete (hash_fd fd) h) [
          | yes e ↦
              subst (λ k. Distinct (update q.hash (hash_fd fd) chain k)) e
                (subst Distinct (sym (update_same q.hash (hash_fd fd) (hash_fd fd) chain refl))
                  (ap (λ k. found k (q.hash (hash_fd fd))) id ∙ free, v.distinct (hash_fd fd)))
          | no apart ↦
              subst Distinct (sym (update_ne q.hash (hash_fd fd) h chain apart)) (v.distinct h)
        ];
        cut = λ g uc' e. elim (ℕ_discrete g fd) [
          | yes same ↦
              let u : uc ≡ uc' = some_inj (sym linked ∙ ap (uc_of o') (sym same) ∙ e) in
              subst (λ x. IsCut x.read x) u good
          | no ne ↦ v.cut g uc' (sym (others g ne) ∙ e)
        ];
      },
      linked,
      others,
    )

-- A socket that closes leaves nothing behind, and the other sockets keep what they have.
pub close_uncomplete_lem :
    (o : Option Queue) {ps : List Netpack} (fd : ℕ)
    → IsValid o ps
    → IsValid (close_uncomplete o fd) ps
      × (partial (close_uncomplete o fd) fd ≡ [])
      × SameOthers fd o (close_uncomplete o fd)
unfolding close_uncomplete
close_uncomplete_lem o fd v =
    let (same, valid, gone, others) = find_lem o fd v in (valid, ap raw_of gone, others)
