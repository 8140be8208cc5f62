-- ===== src/Seri/Refusal.antt =====
-- lualib-src/lua-seri.c: the values that `pack_one` refuses.
use paohuzi_server.Shared.{
  ℕ, ◌+◌, ◌<◌, ◌≡◌, refl, ◌⊎◌, inl, inr, [], ◌∷◌, false, Option, none, some, arith, ◌>>=◌, ap,
  Bool-cases,
}
use paohuzi_server.Seri.{
  Value, nil, boolean, integer, real, pointer, text, table, paired, unsupported, Items, no_items,
  item, Pairs, no_pairs, pair, count_items, is_array_key, is_nil, combine_type, WriteBlock, wb_push,
  wb_array_size, within_depth, pack_one, pack_items, pack_hash, pack_metapairs, luaseri_pack,
  wb_init,
}

-- A value of a type that is not supported, or a table more than 32 deep, in what is packed.
unfoldable mutual
  pub IsRefused : ℕ → Value → Type 0
  IsRefused d (table l m) =
      (32 < d) ⊎ (AnyRefused (d + 1) l ⊎ HashRefused (d + 1) (count_items l) m)
  IsRefused d (paired m) = (32 < d) ⊎ MetaRefused (d + 1) m
  IsRefused d unsupported = Unit
  IsRefused d nil = 32 < d
  IsRefused d (boolean b) = 32 < d
  IsRefused d (integer n) = 32 < d
  IsRefused d (real bits) = 32 < d
  IsRefused d (pointer address) = 32 < d
  IsRefused d (text s) = 32 < d

  pub AnyRefused : ℕ → Items → Type 0
  AnyRefused d no_items = ⊥
  AnyRefused d (item v l) = IsRefused d v ⊎ AnyRefused d l

  pub HashRefused : ℕ → ℕ → Pairs → Type 0
  HashRefused d size no_pairs = ⊥
  HashRefused d size (pair k v m) =
      ((is_array_key size k ≡ false) × (IsRefused d k ⊎ IsRefused d v)) ⊎ HashRefused d size m

  pub MetaRefused : ℕ → Pairs → Type 0
  MetaRefused d no_pairs = ⊥
  MetaRefused d (pair k v m) =
      (is_nil k ≡ false) × (IsRefused d k ⊎ (IsRefused d v ⊎ MetaRefused d m))

too_deep : (d : ℕ) (r : Option WriteBlock) → 32 < d → within_depth d r ≡ none
too_deep d r h = ground arith

within_none : (d : ℕ) {r : Option WriteBlock} → r ≡ none → within_depth d r ≡ none
within_none d e = ground (arith, e)

bind_none :
    {m : Option WriteBlock} (f : WriteBlock → Option WriteBlock) → m ≡ none → (m >>= f) ≡ none
bind_none f e = ap (λ m. m >>= f) e

-- A continuation that always fails.
bind_all_none :
    (m : Option WriteBlock) (f : WriteBlock → Option WriteBlock)
    → ((wb : WriteBlock) → f wb ≡ none)
    → (m >>= f) ≡ none
bind_all_none none f h = refl
bind_all_none (some wb) f h = h wb

mutual
  unfolding pack_one pack_items pack_hash pack_metapairs IsRefused

  pack_one-none : (v : Value) (d : ℕ) (wb : WriteBlock) → IsRefused d v → pack_one wb v d ≡ none
  pack_one-none (table l m) d wb (inl h) = too_deep d _ h
  pack_one-none (table l m) d wb (inr (inl h)) =
      within_none d (bind_none _ (pack_items-none l (d + 1) (wb_array_size wb (count_items l)) h))
  pack_one-none (table l m) d wb (inr (inr h)) = within_none d (
      bind_all_none (pack_items (wb_array_size wb (count_items l)) l (d + 1)) _
        (λ wb'. pack_hash-none m (d + 1) (count_items l) wb' h))
  pack_one-none (paired m) d wb (inl h) = too_deep d _ h
  pack_one-none (paired m) d wb (inr h) =
      within_none d (pack_metapairs-none m (d + 1) (wb_push wb (combine_type 6 0 ∷ [])) h)
  pack_one-none unsupported d wb h = within_none d refl
  pack_one-none nil d wb h = too_deep d _ h
  pack_one-none (boolean b) d wb h = too_deep d _ h
  pack_one-none (integer n) d wb h = too_deep d _ h
  pack_one-none (real bits) d wb h = too_deep d _ h
  pack_one-none (pointer address) d wb h = too_deep d _ h
  pack_one-none (text s) d wb h = too_deep d _ h

  pack_items-none :
      (l : Items) (d : ℕ) (wb : WriteBlock) → AnyRefused d l → pack_items wb l d ≡ none
  pack_items-none no_items d wb h = absurd h
  pack_items-none (item v l) d wb (inl h) = bind_none _ (pack_one-none v d wb h)
  pack_items-none (item v l) d wb (inr h) =
      bind_all_none (pack_one wb v d) _ (λ wb'. pack_items-none l d wb' h)

  pack_hash-none :
      (m : Pairs) (d size : ℕ) (wb : WriteBlock)
      → HashRefused d size m
      → pack_hash wb m d size ≡ none
  pack_hash-none no_pairs d size wb h = absurd h
  pack_hash-none (pair k v m) d size wb (inl (e, inl h)) =
      rw e (bind_none _ (pack_one-none k d wb h))
  pack_hash-none (pair k v m) d size wb (inl (e, inr h)) =
      rw e (bind_all_none (pack_one wb k d) _ (λ wb'. bind_none _ (pack_one-none v d wb' h)))
  pack_hash-none (pair k v m) d size wb (inr h) = elim (Bool-cases (is_array_key size k)) [
    | inl e ↦ rw e (pack_hash-none m d size wb h)
    | inr e ↦ rw e (
        bind_all_none (pack_one wb k d) _
          (λ wb'. bind_all_none (pack_one wb' v d) _ (λ wb''. pack_hash-none m d size wb'' h)))
  ]

  pack_metapairs-none :
      (m : Pairs) (d : ℕ) (wb : WriteBlock) → MetaRefused d m → pack_metapairs wb m d ≡ none
  pack_metapairs-none no_pairs d wb h = absurd h
  pack_metapairs-none (pair k v m) d wb (e, inl h) = rw e (bind_none _ (pack_one-none k d wb h))
  pack_metapairs-none (pair k v m) d wb (e, inr (inl h)) =
      rw e (bind_all_none (pack_one wb k d) _ (λ wb'. bind_none _ (pack_one-none v d wb' h)))
  pack_metapairs-none (pair k v m) d wb (e, inr (inr h)) = rw e (
      bind_all_none (pack_one wb k d) _
        (λ wb'. bind_all_none (pack_one wb' v d) _ (λ wb''. pack_metapairs-none m d wb'' h)))

-- `luaseri_pack` raises an error where an argument is of a type that it does not support or nests
-- tables more than 32 deep, or where something that is packed inside one does.
pub luaseri_pack-none : (l : Items) → AnyRefused 0 l → luaseri_pack l ≡ none
unfolding luaseri_pack
luaseri_pack-none l h = rw (pack_items-none l 0 wb_init h) refl
