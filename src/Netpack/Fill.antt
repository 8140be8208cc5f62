-- ===== src/Netpack/Fill.antt =====
-- lualib-src/lua-netpack.c: `filter_data_` for a package of which some bytes came before.
use paohuzi_server.Shared.{
  ℕ, ◌+◌, ◌-◌, ◌*◌, ◌/◌, ◌%◌, ◌^◌, ◌≤◌, ◌<◌, ◌≡◌, refl, true, false, Option, none, some, List, [],
  ◌∷◌, ◌++◌, arith, ltb, ◌==◌, map, length, take, drop, length-append, length-take, length-drop,
  append-nil, take-append_right, drop-append_right, take-all, drop-all, subst, sym, ◌∙◌, ap, ap₂,
  ℕ_discrete, dec_lt,
}
use paohuzi_server.Shared.Int.{pos}
use paohuzi_server.Netpack.{
  Netpack, Uncomplete, Queue, hash_fd, unlink_node, find_uncomplete, get_queue, link_node,
  push_data, push_more, save_uncomplete, read_size, queue_size, Event, nothing, packet, more, fill,
  resume, start_package, filter_data,
}
use paohuzi_server.Netpack.Partial.{uc_of, partial, IsValid, SameOthers}
use paohuzi_server.Netpack.Frames.{first_frame, parse, parse-stop, parse-step, parse_nonempty}
use paohuzi_server.Netpack.Reads.{
  AllBytes, AllBytes-drop, netpack, answer, answer-more, Reads, keep_lem, queue_lem, Reads-step,
  whole_lem, cut_lem, push_more_lem,
}

-- The three ways through `fill`; `size` bytes make the package, of which `n` came before.
module _ (o : Option Queue) (fd n : ℕ) (uc : Uncomplete) (buffer : List ℕ)
    (had : n ≡ length uc.pack.buffer) where
  abbrev pub whole : List ℕ
  whole = uc.pack.buffer ++ take (uc.pack.size - n) buffer

  abbrev pub extended : Uncomplete
  extended = record uc {
    pack = record (uc.pack) { buffer = uc.pack.buffer ++ buffer };
    read = pos (n + length buffer);
  }

  pub fill-short :
      ltb (length buffer) (uc.pack.size - n) ≡ true
      → fill o fd uc n buffer ≡ some (some (link_node (get_queue o) fd extended), nothing)
  unfolding fill
  fill-short t = rw (t, take-all n uc.pack.buffer (omega arith)) refl

  pub fill-exact :
      ltb (length buffer) (uc.pack.size - n) ≡ false
      → (length buffer == uc.pack.size - n) ≡ true
      → fill o fd uc n buffer ≡ some (o, packet fd whole uc.pack.size)
  unfolding fill
  fill-exact t u = rw (t, u, take-all n uc.pack.buffer (omega arith)) refl

  pub fill-more :
      (q q' : Queue)
      → ltb (length buffer) (uc.pack.size - n) ≡ false
      → (length buffer == uc.pack.size - n) ≡ false
      → push_data o fd whole uc.pack.size ≡ some q
      → push_more (length buffer) (some q) fd (drop (uc.pack.size - n) buffer) ≡ some q'
      → fill o fd uc n buffer ≡ some (some q', more)
  unfolding fill
  fill-more q q' t u pushed read =
      rw (t, u, take-all n uc.pack.buffer (omega arith), pushed, read) refl

-- What a call of `filter_data_` does where `l` are the bytes of the socket that no package has yet.
pub record Outcome (o : Option Queue) (ps : List Netpack) (fd : ℕ) (l : List ℕ)
    (r : Option (Option Queue × Event)) : Type 0 where
  pub after : Option Queue
  pub result : r ≡ some (after, (answer fd (parse l)).0)
  pub valid : IsValid after (ps ++ (answer fd (parse l)).1)
  pub left : partial after fd ≡ (parse l).1
  pub others : SameOthers fd o after

-- No whole package yet.
pub Outcome-short :
    (o : Option Queue) {ps : List Netpack} (fd : ℕ) (l : List ℕ) (after : Option Queue)
    (r : Option (Option Queue × Event))
    → first_frame l ≡ none
    → r ≡ some (after, nothing)
    → Reads o ps fd l after
    → Outcome o ps fd l r
Outcome-short o {ps} fd l after r stop e reads = record {
  after = after;
  result = rw (parse-stop l stop) e;
  valid =
      rw (parse-stop l stop)
        (subst (λ x. IsValid after (ps ++ map (netpack fd) x.0)) (parse-stop l stop) reads.valid);
  left = reads.left;
  others = reads.others;
}

-- One package and no more.
pub Outcome-exact :
    (o : Option Queue) {ps : List Netpack} (fd : ℕ) (l p : List ℕ)
    (r : Option (Option Queue × Event))
    → IsValid o ps
    → uc_of o fd ≡ none
    → first_frame l ≡ some (p, [])
    → r ≡ some (o, packet fd p (length p))
    → Outcome o ps fd l r
unfolding paohuzi_server.Netpack.Frames.frames
Outcome-exact o {ps} fd l p r v free step e = record {
  after = o;
  result = rw (parse-step l step) e;
  valid = rw (parse-step l step) (subst (IsValid o) (sym (append-nil ps)) v);
  left = rw (parse-step l step, free) refl;
  others = λ g ne. refl;
}

-- A package and bytes behind it.
pub Outcome-more :
    (o : Option Queue) {ps : List Netpack} (fd : ℕ) (l p rest : List ℕ) (after : Option Queue)
    (r : Option (Option Queue × Event))
    → first_frame l ≡ some (p, rest)
    → 0 < length rest
    → r ≡ some (after, more)
    → Reads o ps fd l after
    → Outcome o ps fd l r
Outcome-more o {ps} fd l p rest after r step some_left e reads =
    let told : answer fd (parse l) ≡ (more, map (netpack fd) (parse l).0) =
      rw (parse-step l step)
        (answer-more fd p (parse rest).0 (parse rest).1 (parse_nonempty rest some_left)) in
    record {
      after = after;
      result = rw told e;
      valid = rw told reads.valid;
      left = reads.left;
      others = reads.others;
    }

pub fill_lem :
    (o : Option Queue) {ps : List Netpack} (fd n : ℕ) (uc : Uncomplete) (chunk : List ℕ)
    → IsValid o ps
    → uc_of o fd ≡ none
    → uc.pack.id ≡ fd
    → n ≡ length uc.pack.buffer
    → n ≤ uc.pack.size
    → uc.pack.size < 2 ^ 16
    → AllBytes chunk
    → length ps + length chunk + queue_size + 1 < 2 ^ 31
    → Outcome o ps fd
        (uc.pack.size / 256 ∷ uc.pack.size % 256 ∷ uc.pack.buffer ++ chunk)
        (fill o fd uc n chunk)
fill_lem o {ps} fd n uc chunk v free id had fits wide bytes small =
    let size : ℕ = uc.pack.size in
    let need : ℕ = size - n in
    let all : List ℕ = uc.pack.buffer ++ chunk in
    let l : List ℕ = size / 256 ∷ size % 256 ∷ all in
    let digits : size / 256 * 256 + size % 256 ≡ size = omega arith in
    let la : length all ≡ n + length chunk = omega (arith, length-append uc.pack.buffer chunk) in
    elim (dec_lt (length chunk) need) [
      | yes short ↦
          let t : ltb (length chunk) need ≡ true = ground arith in
          let stop : first_frame l ≡ none = cut_lem (size / 256) (size % 256) all (omega arith) in
          Outcome-short o fd l _ _ stop (fill-short o fd n uc chunk had t) (
            keep_lem o fd (extended o fd n uc chunk had) l v free id (sym la, omega arith, wide)
              refl stop)
      | no long ↦
          let p : List ℕ = whole o fd n uc chunk had in
          let rest : List ℕ = drop need chunk in
          let t : ltb (length chunk) need ≡ false = ground arith in
          let taken : take size all ≡ p =
            take-append_right uc.pack.buffer chunk size need (omega arith) in
          let gone : drop size all ≡ rest =
            drop-append_right uc.pack.buffer chunk size need (omega arith) in
          let step : first_frame l ≡ some (p, rest) =
            whole_lem (size / 256) (size % 256) all (omega arith)
            ∙ ap (λ k. some (take k all, drop k all)) digits
            ∙ ap₂ (λ a b. some (a, b)) taken gone in
          let lp : length p ≡ size = omega (
            arith,
            length-append uc.pack.buffer (take need chunk),
            length-take need chunk (omega arith),
          ) in
          elim (ℕ_discrete (length chunk) need) [
            | yes exact ↦
                Outcome-exact o fd l p _ v free
                  (step ∙ ap (λ r. some (p, r)) (drop-all need chunk (omega arith)))
                  (fill-exact o fd n uc chunk had t (ground arith)
                    ∙ ap (λ k. some (o, packet fd p k)) (sym lp))
            | no some_more ↦
                let (q, pushed, valid, same) = queue_lem o fd p v free (omega arith) in
                let (q', done, reads) =
                  push_more_lem (length chunk) (some q) fd rest valid (same fd ∙ free)
                    (AllBytes-drop need chunk bytes) (omega (arith, length-drop need chunk))
                    (omega (arith, length-drop need chunk))
                    (omega (arith, length-append ps (netpack fd p ∷ []), length-drop need chunk)) in
                Outcome-more o fd l p rest (some q') _ step (omega (arith, length-drop need chunk))
                  (fill-more o fd n uc chunk had q q' t (ground arith)
                    (ap (push_data o fd p) (sym lp) ∙ pushed) done)
                  (Reads-step o (some q) (some q') fd l p rest step same reads)
          ]
    ]
