-- ===== src/Netpack/Reads.antt =====
-- lualib-src/lua-netpack.c: `push_more` queues the whole packages of a buffer and keeps the rest.
use paohuzi_server.Shared.{
  ℕ, zero, suc, ◌+◌, ◌-◌, ◌*◌, ◌^◌, ◌≤◌, ◌<◌, ◌≡◌, refl, ◌≢◌, true, false, Option, none, some, List,
  [], ◌∷◌, ◌++◌, arith, ltb, map, length, take, drop, length-append, length-take, length-drop,
  append-nil, append_assoc, subst, sym, ◌∙◌, ap, ap₂, ℕ_discrete, dec_lt,
}
use paohuzi_server.Shared.Bits.{bit_or_low}
use paohuzi_server.Shared.Int.{pos}
use paohuzi_server.Netpack.{
  Netpack, Uncomplete, Queue, hash_fd, unlink_node, find_uncomplete, get_queue, link_node,
  push_data, push_more, save_uncomplete, read_size, queue_size, Event, nothing, packet, more, fill,
  resume, start_package, filter_data,
}
use paohuzi_server.Netpack.Ring.{HasPacks, push_data_lem}
use paohuzi_server.Netpack.Partial.{
  found, Distinct, uc_of, IsCut, raw, partial, IsValid, SameOthers, link_lem,
}
use paohuzi_server.Netpack.Frames.{first_frame, parse, parse-stop, parse-step, parse_nonempty}

abbrev pub AllBytes : List ℕ → Type 0
AllBytes [] = Unit
AllBytes (x ∷ l) = (x < 256) × AllBytes l

pub AllBytes-drop : (n : ℕ) (l : List ℕ) → AllBytes l → AllBytes (drop n l)
AllBytes-drop zero l h = h
AllBytes-drop (suc n) [] h = tt
AllBytes-drop (suc n) (x ∷ l) h = AllBytes-drop n l h.1

pub read_size_lem : (high low : ℕ) → low < 256 → read_size high low ≡ high * 256 + low
unfolding read_size
read_size_lem high low h = bit_or_low 8 high low h

abbrev pub netpack : ℕ → List ℕ → Netpack
netpack fd p = record { id = fd; size = length p; buffer = p }

-- What the caller is told when packages came and bytes are left, and the packages queued for it.
abbrev pub answer : ℕ → List (List ℕ) × List ℕ → Event × List Netpack
answer fd ([], r) = (nothing, [])
answer fd (p ∷ [], []) = (packet fd p (length p), [])
answer fd (p ∷ [], x ∷ r) = (more, netpack fd p ∷ [])
answer fd (p ∷ p' ∷ ps, r) = (more, map (netpack fd) (p ∷ p' ∷ ps))

pub answer-more :
    (fd : ℕ) (p : List ℕ) (ps : List (List ℕ)) (r : List ℕ)
    → (ps ≡ [] → r ≢ [])
    → answer fd (p ∷ ps, r) ≡ (more, map (netpack fd) (p ∷ ps))
answer-more fd p [] [] h = absurd (h refl refl)
answer-more fd p [] (x ∷ r) h = refl
answer-more fd p (p' ∷ ps) r h = refl

-- `push_more` at its end: the packages of `l` are queued and the rest is kept for `fd`.
pub record Reads (o : Option Queue) (ps : List Netpack) (fd : ℕ) (l : List ℕ) (o' : Option Queue)
    : Type 0 where
  pub valid : IsValid o' (ps ++ map (netpack fd) (parse l).0)
  pub left : partial o' fd ≡ (parse l).1
  pub others : SameOthers fd o o'

pub hash-IsValid :
    (o o' : Option Queue) {ps ps' : List Netpack}
    → (get_queue o').hash ≡ (get_queue o).hash
    → HasPacks (get_queue o') ps'
    → IsValid o ps
    → IsValid o' ps'
hash-IsValid o o' e h v = record {
  packs = h;
  distinct = λ i. subst (λ f. Distinct (f i)) (sym e) (v.distinct i);
  cut = λ fd uc same. v.cut fd uc (ap (λ f. found fd (f (hash_fd fd))) (sym e) ∙ same);
}

-- Bytes without a whole package are kept.
pub keep_lem :
    (o : Option Queue) {ps : List Netpack} (fd : ℕ) (uc : Uncomplete) (l : List ℕ)
    → IsValid o ps
    → uc_of o fd ≡ none
    → uc.pack.id ≡ fd
    → IsCut uc.read uc
    → raw uc.read uc ≡ l
    → first_frame l ≡ none
    → Reads o ps fd l (some (link_node (get_queue o) fd uc))
keep_lem o {ps} fd uc l v free id cut same stop =
    let (valid, linked, others) = link_lem o fd uc v free id cut in
    record {
      valid = rw (parse-stop l stop, append-nil ps) valid;
      left = rw (parse-stop l stop, linked) same;
      others = others;
    }

-- A whole package is queued.
pub queue_lem :
    (o : Option Queue) {ps : List Netpack} (fd : ℕ) (p : List ℕ)
    → IsValid o ps
    → uc_of o fd ≡ none
    → length ps + 1 + queue_size < 2 ^ 31
    → (q : Queue) × (push_data o fd p (length p) ≡ some q)
      × IsValid (some q) (ps ++ netpack fd p ∷ [])
      × ((g : ℕ) → uc_of (some q) g ≡ uc_of o g)
unfolding get_queue
queue_lem o {ps} fd p v free small =
    let (q, e, h, same) = push_data_lem o fd p (length p) v.packs small in
    (q, e, hash-IsValid o (some q) same h v, λ g. ap (λ f. found g (f (hash_fd g))) same)

-- A package and then what follows it.
pub Reads-step :
    (o o' o'' : Option Queue) {ps : List Netpack} (fd : ℕ) (l p rest : List ℕ)
    → first_frame l ≡ some (p, rest)
    → ((g : ℕ) → uc_of o' g ≡ uc_of o g)
    → Reads o' (ps ++ netpack fd p ∷ []) fd rest o''
    → Reads o ps fd l o''
Reads-step o o' o'' {ps} fd l p rest step same r = record {
  valid = rw (parse-step l step) (
      subst (IsValid o'') (append_assoc ps (netpack fd p ∷ []) (map (netpack fd) (parse rest).0))
        r.valid);
  left = rw (parse-step l step) r.left;
  others = λ g ne. r.others g ne ∙ same g;
}

-- `first_frame` of a header and what comes behind it.
pub whole_lem :
    (high low : ℕ) (l : List ℕ)
    → high * 256 + low ≤ length l
    → first_frame (high ∷ low ∷ l) ≡ some (take (high * 256 + low) l, drop (high * 256 + low) l)
whole_lem high low l h = ground arith

pub cut_lem :
    (high low : ℕ) (l : List ℕ) → length l < high * 256 + low → first_frame (high ∷ low ∷ l) ≡ none
cut_lem high low l h = ground arith

-- A package cut short after its two length bytes.
abbrev pub cut_package : ℕ → ℕ → List ℕ → Uncomplete
cut_package fd size l = record {
  pack = record { id = fd; size = size; buffer = l };
  read = pos (length l);
  header = 0;
}

-- Nothing is left to read.
pub Reads-nil :
    (o : Option Queue) {ps : List Netpack} (fd : ℕ) (l : List ℕ)
    → IsValid o ps
    → uc_of o fd ≡ none
    → length l ≡ 0
    → Reads o ps fd l o
unfolding paohuzi_server.Netpack.Frames.frames
Reads-nil o {ps} fd [] v free empty = record {
  valid = rw (append-nil ps) v;
  left = rw free refl;
  others = λ g ne. refl;
}
Reads-nil o fd (x ∷ l) v free empty = absurd (omega arith)

-- The ways through `push_more` for a package of `size` bytes that came whole.
module _ (fuel : ℕ) (o : Option Queue) (fd high low size : ℕ) (l : List ℕ) (q : Queue)
    (e : read_size high low ≡ size) (t : ltb (length l) size ≡ false)
    (pushed : push_data o fd (take size l) size ≡ some q) where
  push_more-last :
      ltb 0 (length l - size) ≡ false → push_more (suc fuel) o fd (high ∷ low ∷ l) ≡ some q
  unfolding push_more
  push_more-last u = rw (e, t, pushed, u) refl

  push_more-next :
      ltb 0 (length l - size) ≡ true
      → push_more (suc fuel) o fd (high ∷ low ∷ l) ≡ push_more fuel (some q) fd (drop size l)
  unfolding push_more
  push_more-next u = rw (e, t, pushed, u) refl

pub push_more_lem :
    (fuel : ℕ) (o : Option Queue) {ps : List Netpack} (fd : ℕ) (l : List ℕ)
    → IsValid o ps
    → uc_of o fd ≡ none
    → AllBytes l
    → 0 < length l
    → length l ≤ fuel
    → length ps + length l + queue_size < 2 ^ 31
    → (q : Queue) × (push_more fuel o fd l ≡ some q) × Reads o ps fd l (some q)
unfolding push_more save_uncomplete
push_more_lem fuel o fd [] v free bytes some_left enough small = absurd (omega arith)
push_more_lem zero o fd (high ∷ l) v free bytes some_left enough small = absurd (omega arith)
push_more_lem (suc fuel) o fd (high ∷ []) v free bytes some_left enough small =
    (_, refl, keep_lem o fd _ (high ∷ []) v free refl bytes.0 refl refl)
push_more_lem (suc fuel) o {ps} fd (high ∷ low ∷ l) v free bytes some_left enough small =
    let size : ℕ = high * 256 + low in
    let e : read_size high low ≡ size = read_size_lem high low bytes.1.0 in
    elim (dec_lt (length l) size) [
      | yes short ↦
          let t : ltb (length l) size ≡ true = ground arith in
          (
            _,
            rw (e, t) refl,
            keep_lem o fd (cut_package fd size l) (high ∷ low ∷ l) v free refl
                (refl, short, omega (arith, bytes.0, bytes.1.0))
                (ap₂ (λ a b. a ∷ b ∷ l) (omega (arith, bytes.1.0)) (omega (arith, bytes.1.0)))
                (cut_lem high low l short),
          )
      | no long ↦
          let p : List ℕ = take size l in
          let rest : List ℕ = drop size l in
          let lp : length p ≡ size = length-take size l (omega arith) in
          let lr : length rest ≡ length l - size = length-drop size l in
          let step = whole_lem high low l (omega arith) in
          let t : ltb (length l) size ≡ false = ground arith in
          let (q, pushed, valid, same) = queue_lem o fd p v free (omega arith) in
          let pushed' : push_data o fd p size ≡ some q = ap (push_data o fd p) (sym lp) ∙ pushed in
          elim (ℕ_discrete (length l) size) [
            | yes all ↦
                let u : ltb 0 (length l - size) ≡ false = ground arith in
                (
                  q,
                  push_more-last fuel o fd high low size l q e t pushed' u,
                  Reads-step o (some q) (some q) fd (high ∷ low ∷ l) p rest step same
                      (Reads-nil (some q) fd rest valid (same fd ∙ free) (omega arith)),
                )
            | no some_more ↦
                let u : ltb 0 (length l - size) ≡ true = ground arith in
                let (q', done, reads) =
                  push_more_lem fuel (some q) fd rest valid (same fd ∙ free)
                    (AllBytes-drop size l bytes.1.1) (omega arith) (omega arith)
                    (omega (arith, length-append ps (netpack fd p ∷ []))) in
                (
                  q',
                  push_more-next fuel o fd high low size l q e t pushed' u ∙ done,
                  Reads-step o (some q) (some q') fd (high ∷ low ∷ l) p rest step same reads,
                )
          ]
    ]
