-- ===== src/Hashid/Lookup.antt =====
-- service-src/hashid.h: the chains as a partial map from ids to cells.
use paohuzi_server.Shared.{
  ℕ, zero, suc, ◌+◌, ◌≤◌, ◌<◌, ◌≡◌, ◌↔◌, inl, inr, refl, true, false, Option, none, some, arith,
  sym, ◌∙◌, ap, if◌then◌else◌, Option-cases, ℕ_discrete, dec_lt, ltb, ◌*◌, update, update_same,
  update_ne,
}
use Prim.Native.Nat.{bit_and}
use paohuzi_server.Mq.Global.{In, Distinct}
use paohuzi_server.Hashid.{
  Hashid, find_node, hashid_lookup, hashid_init, hashid_clear, double_to, is_free,
}
use paohuzi_server.Hashid.Chains.{find_node-some, find_node-none}

-- How many of the first `n` cells are in use.
abbrev pub used : (ℕ → Option ℕ) → ℕ → ℕ
used id zero = 0
used id (suc n) = used id n + (if is_free (id n) then 0 else 1)

-- Each cell in use is once in the chain of its id, no id has two cells, and `count` counts them.
pub record IsHashid (hi : Hashid) : Type 0 where
  pub placed : (c x : ℕ) → hi.id c ≡ some x → In c (hi.hash (bit_and x hi.hashmod))
  pub linked :
      (h c : ℕ)
      → In c (hi.hash h)
      → (c < hi.cap) × (x : ℕ) × (hi.id c ≡ some x) × (bit_and x hi.hashmod ≡ h)
  pub unique : (c d x : ℕ) → hi.id c ≡ some x → hi.id d ≡ some x → c ≡ d
  pub distinct : (h : ℕ) → Distinct (hi.hash h)
  pub counted : hi.count ≡ used hi.id hi.cap

used-none : (n : ℕ) → used (λ c. none) n ≡ 0
used-none zero = refl
used-none (suc n) = omega (arith, used-none n)

pub hashid_init-IsHashid : (max : ℕ) → IsHashid (hashid_init max)
unfolding hashid_init
hashid_init-IsHashid max = record {
  placed = λ c x e. absurd (ground (arith, e));
  linked = λ h c m. absurd m;
  unique = λ c d x e e'. absurd (ground (arith, e));
  distinct = λ h. tt;
  counted = sym (used-none max);
}

-- The doubling ends with a hash at least as large as the table.
double_to-le :
    (fuel max hashcap : ℕ) → 0 < hashcap → max ≤ hashcap + fuel → max ≤ double_to fuel max hashcap
unfolding double_to
double_to-le zero max hashcap pos le = omega arith
double_to-le (suc fuel) max hashcap pos le = elim (dec_lt hashcap max) [
  | yes lt ↦
      let t : ltb hashcap max ≡ true = ground arith in
      rw t (double_to-le fuel max (hashcap * 2) (omega arith) (omega arith))
  | no ge ↦ let t : ltb hashcap max ≡ false = ground arith in rw t (omega arith)
]

pub hashid_init-le : (max : ℕ) → max ≤ (hashid_init max).hashmod + 1
unfolding hashid_init
hashid_init-le max = omega (arith, double_to-le max max 16 (omega arith) (omega arith))

pub hashid_clear-IsHashid : (hi : Hashid) → IsHashid (hashid_clear hi)
unfolding hashid_clear
hashid_clear-IsHashid hi = record {
  placed = λ c x e. absurd (ground (arith, e));
  linked = λ h c m. absurd m;
  unique = λ c d x e e'. absurd (ground (arith, e));
  distinct = λ h. tt;
  counted = refl;
}

-- `hashid_lookup` finds the cell of an id in its chain, if some cell has that id.
pub hashid_lookup_lem :
    {hi : Hashid} (id c : ℕ) → IsHashid hi → (hashid_lookup hi id ≡ some c) ↔ (hi.id c ≡ some id)
unfolding hashid_lookup
hashid_lookup_lem {hi} id c v = (
  λ e. (find_node-some hi id (hi.hash (bit_and id hi.hashmod)) e).1,
  λ mine. elim (Option-cases (find_node hi id (hi.hash (bit_and id hi.hashmod)))) [
    | inl e ↦
        absurd
          (find_node-none hi id (hi.hash (bit_and id hi.hashmod)) c e (v.placed c id mine) mine)
    | inr (d, e) ↦
        let (m, other) = find_node-some hi id (hi.hash (bit_and id hi.hashmod)) e in
        e ∙ ap some (v.unique d c id other mine)
  ],
)

pub cell-lt : {hi : Hashid} (c x : ℕ) → IsHashid hi → hi.id c ≡ some x → c < hi.cap
cell-lt {hi} c x v e = (v.linked (bit_and x hi.hashmod) c (v.placed c x e)).0

abbrev pub busy : Option ℕ → ℕ
busy o = if is_free o then 0 else 1

pub used-update :
    (id : ℕ → Option ℕ) (c : ℕ) (o : Option ℕ) (n : ℕ)
    → c < n
    → used (update id c o) n + busy (id c) ≡ used id n + busy o
used-update id c o n lt = (used_both n).1 lt
  where
    used_both :
        (n : ℕ)
        → (n ≤ c → used (update id c o) n ≡ used id n)
          × (c < n → used (update id c o) n + busy (id c) ≡ used id n + busy o)
    used_both zero = (λ le. refl, λ less. absurd (omega arith))
    used_both (suc n) =
        let (above, below) = used_both n in
        elim (ℕ_discrete c n) [
          | yes same ↦ (
            λ le. absurd (omega arith),
            λ less. omega (
              arith,
              above (omega arith),
              ap busy (update_same id c n o same),
              ap (λ k. busy (id k)) same,
            ),
          )
          | no ne ↦
              let other = ap busy (update_ne id c n o ne) in
              (
                λ le. omega (arith, above (omega arith), other),
                λ less. omega (arith, below (omega arith), other),
              )
        ]

-- An operation on a map that changes it at one place.
pub Option-ext : (o o' : Option ℕ) → ((c : ℕ) → (o ≡ some c) ↔ (o' ≡ some c)) → o ≡ o'
Option-ext none none h = refl
Option-ext none (some c) h = (h c).1 refl
Option-ext (some c) o' h = sym ((h c).0 refl)
