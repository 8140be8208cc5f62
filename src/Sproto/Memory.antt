-- ===== src/Sproto/Memory.antt =====
-- lualib-src/sproto/sproto.c: what is in a buffer after writes to it.
use paohuzi_server.Shared.{
  ℕ, zero, suc, ◌+◌, ◌≤◌, ◌<◌, ◌≡◌, refl, true, some, List, [], ◌∷◌, ◌++◌, arith, sym, ◌∙◌, ap, ap₂,
  ltb, length, update, update_same, update_ne,
}
use paohuzi_server.Sproto.{store_within, store_all, zeros, read}

pub read_same :
    (f g : ℕ → ℕ) (at n : ℕ)
    → ((j : ℕ) → at ≤ j → j < at + n → f j ≡ g j)
    → read f at n ≡ read g at n
read_same f g at zero h = refl
read_same f g at (suc n) h =
    ap₂ (λ b l. b ∷ l) (h at (omega arith) (omega arith))
      (read_same f g (at + 1) n (λ j le lt. h j (omega arith) (omega arith)))

pub read-append : (f : ℕ → ℕ) (at n k : ℕ) → read f at (n + k) ≡ read f at n ++ read f (at + n) k
read-append f at zero k =
    let e : 0 + k ≡ k = omega arith in
    let e' : at + 0 ≡ at = omega arith in ap (read f at) e ∙ ap (λ i. read f i k) (sym e')
read-append f at (suc n) k =
    let e : suc n + k ≡ suc (n + k) = omega arith in
    let e' : at + 1 + n ≡ at + suc n = omega arith in
    ap (read f at) e
    ∙ ap (λ l. f at ∷ l) (read-append f (at + 1) n k ∙ ap (λ i. read f (at + 1) n ++ read f i k) e')

-- `g` has `bytes` at `at`, and is `f` elsewhere.
pub record Writes (f : ℕ → ℕ) (at : ℕ) (bytes : List ℕ) (g : ℕ → ℕ) : Type 0 where
  pub new : read g at (length bytes) ≡ bytes
  pub old : (j : ℕ) → j < at → g j ≡ f j
  pub after : (j : ℕ) → at + length bytes ≤ j → g j ≡ f j

pub store_all_lem :
    (cap : ℕ) (f : ℕ → ℕ) (at : ℕ) (bytes : List ℕ)
    → at + length bytes ≤ cap
    → (g : ℕ → ℕ) × (store_all cap f at bytes ≡ some g) × Writes f at bytes g
unfolding store_all
store_all_lem cap f at [] h =
    (f, refl, record { new = refl; old = λ j lt. refl; after = λ j le. refl })
store_all_lem cap f at (b ∷ bytes) h =
    let t : ltb at cap ≡ true = ground arith in
    let (g, e, w) = store_all_lem cap (update f at b) (at + 1) bytes (omega arith) in
    (
      g,
      rw (t, e) refl,
      record {
        new = ap₂ (λ x l. x ∷ l) (w.old at (omega arith) ∙ update_same f at at b refl) w.new;
        old = λ j lt. w.old j (omega arith) ∙ update_ne f at j b (omega arith);
        after = λ j le. w.after j (omega arith) ∙ update_ne f at j b (omega arith);
      },
    )

pub store_within_old : (cap : ℕ) (f : ℕ → ℕ) (at b j : ℕ) → j < at → store_within cap f at b j ≡ f j
store_within_old cap f at b j lt = ground arith

pub store_within_here : (cap : ℕ) (f : ℕ → ℕ) (at b : ℕ) → at < cap → store_within cap f at b at ≡ b
store_within_here cap f at b lt = ground arith

pub store_within_after :
    (cap : ℕ) (f : ℕ → ℕ) (at b j : ℕ) → at < j → store_within cap f at b j ≡ f j
store_within_after cap f at b j lt = ground arith

pub length-zeros : (n : ℕ) → length (zeros n) ≡ n
length-zeros zero = refl
length-zeros (suc n) = omega (arith, length-zeros n)
