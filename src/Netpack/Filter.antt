-- ===== src/Netpack/Filter.antt =====
-- lualib-src/lua-netpack.c: `filter_data_` cuts the bytes that come for a socket into packages.
use paohuzi_server.Shared.{
  ℕ, zero, suc, ◌+◌, ◌*◌, ◌/◌, ◌%◌, ◌^◌, ◌<◌, ◌≡◌, refl, Option, none, some, List, [], ◌∷◌, ◌++◌,
  arith, length, take-all, subst, sym, ◌∙◌, ap₂, ℕ_discrete, dec_lt,
}
use paohuzi_server.Shared.Int.{ℤ, pos, negsuc}
use paohuzi_server.Netpack.{
  Netpack, Uncomplete, Queue, hash_fd, find_uncomplete, get_queue, save_uncomplete, read_size,
  queue_size, Event, fill, resume, start_package, filter_data,
}
use paohuzi_server.Netpack.Partial.{
  uc_of, IsCut, raw, raw_of, partial, IsValid, SameOthers, find_lem, found-id,
}
use paohuzi_server.Netpack.Reads.{AllBytes, read_size_lem, keep_lem}
use paohuzi_server.Netpack.Fill.{Outcome, Outcome-short, fill_lem}

abbrev fresh : ℕ → ℕ → Uncomplete
fresh fd size = record {
  pack = record { id = fd; size = size; buffer = [] };
  read = pos 0;
  header = 0;
}

-- The two length bytes at once, or in two calls, make no difference.
start_package-fill :
    (o : Option Queue) (fd high low : ℕ) (l : List ℕ)
    → start_package o fd (high ∷ low ∷ l) ≡ fill o fd (fresh fd (read_size high low)) 0 l
unfolding start_package fill save_uncomplete
start_package-fill o fd high low l = elim (dec_lt (length l) (read_size high low)) [
  | yes short ↦ ground arith
  | no long ↦ elim (ℕ_discrete (length l) (read_size high low)) [
    | yes exact ↦ ground (arith, take-all (read_size high low) l (omega arith))
    | no some_more ↦ ground arith
  ]
]

-- The package of `uc` once its second length byte is known.
abbrev measured : Uncomplete → ℕ → ℕ → Uncomplete
measured uc high low = record uc {
  pack = record (uc.pack) { size = read_size high low; buffer = [] };
  read = pos 0;
}

fill_header_lem :
    (o : Option Queue) {ps : List Netpack} (fd high low : ℕ) (uc : Uncomplete) (chunk : List ℕ)
    → IsValid o ps
    → uc_of o fd ≡ none
    → uc.pack.id ≡ fd
    → high < 256
    → AllBytes (low ∷ chunk)
    → length ps + length chunk + queue_size + 1 < 2 ^ 31
    → Outcome o ps fd (high ∷ low ∷ chunk) (fill o fd (measured uc high low) 0 chunk)
fill_header_lem o {ps} fd high low uc chunk v free id h bytes small =
    let e : read_size high low ≡ high * 256 + low = read_size_lem high low bytes.0 in
    let hi : read_size high low / 256 ≡ high = omega (arith, bytes.0) in
    let lo : read_size high low % 256 ≡ low = omega (arith, bytes.0) in
    subst (λ l. Outcome o ps fd l (fill o fd (measured uc high low) 0 chunk))
      (ap₂ (λ a b. a ∷ b ∷ chunk) hi lo)
      (fill_lem o fd 0 (measured uc high low) chunk v free id refl (omega arith)
        (omega (arith, bytes.0)) bytes.1 small)

start_package_lem :
    (o : Option Queue) {ps : List Netpack} (fd : ℕ) (chunk : List ℕ)
    → IsValid o ps
    → uc_of o fd ≡ none
    → AllBytes chunk
    → 0 < length chunk
    → length ps + length chunk + queue_size + 1 < 2 ^ 31
    → Outcome o ps fd chunk (start_package o fd chunk)
unfolding start_package save_uncomplete
start_package_lem o fd [] v free bytes some_left small = absurd (omega arith)
start_package_lem o fd (high ∷ []) v free bytes some_left small =
    Outcome-short o fd (high ∷ []) _ _ refl refl
      (keep_lem o fd _ (high ∷ []) v free refl bytes.0 refl refl)
start_package_lem o {ps} fd (high ∷ low ∷ chunk) v free bytes some_left small =
    subst (Outcome o ps fd (high ∷ low ∷ chunk)) (sym (start_package-fill o fd high low chunk)) (
      fill_header_lem o fd high low (fresh fd (read_size high low)) chunk v free refl bytes.0
        bytes.1 (omega arith))

resume_lem :
    (o : Option Queue) {ps : List Netpack} (fd : ℕ) (uc : Uncomplete) (read : ℤ) (chunk : List ℕ)
    → IsValid o ps
    → uc_of o fd ≡ none
    → uc.pack.id ≡ fd
    → IsCut read uc
    → AllBytes chunk
    → 0 < length chunk
    → length ps + length chunk + queue_size + 1 < 2 ^ 31
    → Outcome o ps fd (raw read uc ++ chunk) (resume o fd uc read chunk)
unfolding resume
resume_lem o fd uc (pos n) chunk v free id cut bytes some_left small =
    fill_lem o fd n uc chunk v free id cut.0 (omega (arith, cut.1)) cut.2 bytes small
resume_lem o fd uc (negsuc zero) [] v free id cut bytes some_left small = absurd (omega arith)
resume_lem o {ps} fd uc (negsuc zero) (low ∷ chunk) v free id cut bytes some_left small =
    fill_header_lem o fd uc.header low uc chunk v free id cut bytes (omega arith)
resume_lem o fd uc (negsuc (suc k)) chunk v free id cut bytes some_left small = absurd cut

Outcome-before :
    {o o' : Option Queue} {ps : List Netpack} {fd : ℕ} {l : List ℕ}
    {r : Option (Option Queue × Event)}
    → SameOthers fd o o'
    → Outcome o' ps fd l r
    → Outcome o ps fd l r
Outcome-before same h = record {
  after = h.after;
  result = h.result;
  valid = h.valid;
  left = h.left;
  others = λ g ne. h.others g ne ∙ same g ne;
}

-- `filter_data_` once `find_uncomplete` has its answer.
after_find_lem :
    (o : Option Queue) {ps : List Netpack} (fd : ℕ) (chunk : List ℕ) (kept : Option Uncomplete)
    → IsValid o ps
    → uc_of o fd ≡ none
    → ((uc : Uncomplete) → kept ≡ some uc → (uc.pack.id ≡ fd) × IsCut uc.read uc)
    → AllBytes chunk
    → 0 < length chunk
    → length ps + length chunk + queue_size + 1 < 2 ^ 31
    → Outcome o ps fd
        (raw_of kept ++ chunk)
        (elim kept [ none ↦ start_package o fd chunk | some uc ↦ resume o fd uc uc.read chunk ])
after_find_lem o fd chunk none v free good bytes some_left small =
    start_package_lem o fd chunk v free bytes some_left small
after_find_lem o fd chunk (some uc) v free good bytes some_left small =
    let (id, cut) = good uc refl in
    resume_lem o fd uc uc.read chunk v free id cut bytes some_left small

-- The bytes that come are read behind those kept for their socket: every package that is whole then is
-- handed over or queued, in order, the rest is kept, and no other socket is concerned. There is no
-- fault while the number of packages stays in `int`.
pub filter_data_lem :
    (o : Option Queue) {ps : List Netpack} (fd : ℕ) (chunk : List ℕ)
    → IsValid o ps
    → AllBytes chunk
    → 0 < length chunk
    → length ps + length chunk + queue_size + 1 < 2 ^ 31
    → Outcome o ps fd (partial o fd ++ chunk) (filter_data o fd chunk)
unfolding filter_data
filter_data_lem o {ps} fd chunk v bytes some_left small =
    let (same, valid, free, others) = find_lem o fd v in
    Outcome-before others (
      subst
        (λ k. Outcome (find_uncomplete o fd).1 ps fd (raw_of k ++ chunk) (filter_data o fd chunk))
        same
        (after_find_lem (find_uncomplete o fd).1 fd chunk (find_uncomplete o fd).0 valid free
          (λ uc e.
            let kept : uc_of o fd ≡ some uc = sym same ∙ e in
            (found-id fd ((get_queue o).hash (hash_fd fd)) uc kept, v.cut fd uc kept))
          bytes some_left small))
