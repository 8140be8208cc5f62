-- ===== src/Handle.antt =====
-- skynet-src/skynet_handle.c: the services by handle and by name. A context is its address, and
-- `handle_of` is what `skynet_context_handle` reads in it. A function that runs under the write lock,
-- or reads under the read lock, is one step. `none` is a failed assert or a null pointer.
pub mod Slots
pub mod Rehash
pub mod Register
pub mod Retire
pub mod Order
pub mod Bisection
pub mod Names
mod Tests
use Prim.Native.Nat.{bit_and, bit_or, compare, Ordering}
use paohuzi_server.Shared.{
  ℕ, zero, suc, ◌+◌, ◌-◌, ◌*◌, ◌/◌, ◌%◌, ◌^◌, Bool, true, false, Option, none, some, List, [], ◌∷◌,
  ◌++◌, ltb, leb, ◌==◌, if◌then◌else◌, ◌>>=◌, update, length, take, drop, get_elem?,
}

abbrev pub handle_mask : ℕ
handle_mask = 2 ^ 24 - 1

abbrev pub default_slot_size : ℕ
default_slot_size = 4

abbrev pub max_slot_size : ℕ
max_slot_size = 0x40000000

-- `struct handle_name`
pub record HandleName : Type 0 where
  pub name : List ℕ
  pub handle : ℕ

-- `struct handle_storage`; `names` are the first `name_count` cells of `name`.
pub record HandleStorage : Type 0 where
  pub harbor : ℕ
  pub handle_index : ℕ
  pub slot_size : ℕ
  pub slot : ℕ → Option ℕ
  pub name_cap : ℕ
  pub names : List HandleName

-- `skynet_handle_init`
unfoldable pub handle_init : ℕ → HandleStorage
handle_init harbor = record {
  harbor = bit_and harbor 0xff * 2 ^ 24;
  handle_index = 1;
  slot_size = default_slot_size;
  slot = λ _. none;
  name_cap = 2;
  names = [];
}

abbrev pub is_null {ℓ} : {A : Type ℓ} → Option A → Bool
is_null none = true
is_null (some a) = false

-- The handle that a round of the loop of `skynet_handle_register` tries, and its slot.
abbrev pub candidate : HandleStorage → ℕ → ℕ
candidate s i = bit_and ((i + s.handle_index) % 2 ^ 32) handle_mask

abbrev pub hash : HandleStorage → ℕ → ℕ
hash s handle = bit_and handle (s.slot_size - 1)

-- The inner loop of `skynet_handle_register`, with `rounds` to go.
unfoldable pub find_free : HandleStorage → ℕ → ℕ → Option ℕ
find_free s zero i = none
find_free s (suc rounds) i =
    let later = find_free s rounds (i + 1) in
    if is_null (s.slot (hash s (candidate s i))) then some (candidate s i) else later

-- The loop that moves the slots to twice as many, after `n` rounds.
unfoldable pub rehash : (ℕ → ℕ) → HandleStorage → ℕ → Option (ℕ → Option ℕ)
rehash handle_of s zero = some (λ _. none)
rehash handle_of s (suc n) = rehash handle_of s n >>= λ new_slot. s.slot n >>= λ ctx.
    let at = bit_and (handle_of ctx) (s.slot_size * 2 - 1) in
    let moved = some (update new_slot at (some ctx)) in
    if is_null (new_slot at) then moved else none

-- The end of a round of the outer loop.
unfoldable pub grow : (ℕ → ℕ) → HandleStorage → Option HandleStorage
grow handle_of s =
    let moved = rehash handle_of s s.slot_size >>= λ new_slot.
    some (record s { slot = new_slot; slot_size = s.slot_size * 2 }) in
    if leb (s.slot_size * 2 - 1) handle_mask then moved else none

-- The outer loop of `skynet_handle_register`, with fuel.
unfoldable pub register_loop : ℕ → (ℕ → ℕ) → HandleStorage → ℕ → Option (HandleStorage × ℕ)
register_loop zero handle_of s ctx = none
register_loop (suc fuel) handle_of s ctx = elim (find_free s s.slot_size 0) [
  | some handle ↦ some (
    record s { slot = update s.slot (hash s handle) (some ctx); handle_index = handle + 1 },
    bit_or s.harbor handle,
  )
  | none ↦ grow handle_of s >>= λ s'. register_loop fuel handle_of s' ctx
]

-- `skynet_handle_register`, which doubles the slots once at most
unfoldable pub register : (ℕ → ℕ) → HandleStorage → ℕ → Option (HandleStorage × ℕ)
register handle_of s ctx = register_loop 2 handle_of s ctx

-- `skynet_handle_grab`, but for the count of references
unfoldable pub grab : (ℕ → ℕ) → HandleStorage → ℕ → Option ℕ
grab handle_of s handle =
    s.slot (hash s handle) >>= λ ctx. if handle_of ctx == handle then some ctx else none

-- The loop of `skynet_handle_retire` over the names
unfoldable pub drop_names : ℕ → List HandleName → List HandleName
drop_names handle [] = []
drop_names handle (n ∷ l) =
    let rest = drop_names handle l in if n.handle == handle then rest else n ∷ rest

-- `skynet_handle_retire`; the result says whether the context is to be released.
unfoldable pub retire : (ℕ → ℕ) → HandleStorage → ℕ → HandleStorage × Option ℕ
retire handle_of s handle = elim (grab handle_of s handle) [
  | none ↦ (s, none)
  | some ctx ↦ (
    record s { slot = update s.slot (hash s handle) none; names = drop_names handle s.names },
    some ctx,
  )
]

-- `strcmp`, for texts without zero bytes
unfoldable pub strcmp : List ℕ → List ℕ → Ordering
strcmp [] [] = Ordering.eq
strcmp [] (y ∷ t) = Ordering.lt
strcmp (x ∷ s) [] = Ordering.gt
strcmp (x ∷ s) (y ∷ t) =
    let rest = strcmp s t in
    elim (compare x y) [
      | Ordering.lt ↦ Ordering.lt
      | Ordering.gt ↦ Ordering.gt
      | Ordering.eq ↦ rest
    ]

-- Where the search stops: at the name, or at `begin`.
pub data Place : Type 0 where
  hit : HandleName → Place
  miss : ℕ → Place

-- The loop of `skynet_handle_findname` and of `_insert_name`, with fuel. `past` is `end + 1`, for an
-- `end` that can be -1.
unfoldable pub search_name : ℕ → List HandleName → List ℕ → ℕ → ℕ → Option Place
search_name zero names name begin past = none
search_name (suc fuel) names name begin past =
    let mid = (begin + (past - 1)) / 2 in
    let above = search_name fuel names name (mid + 1) past in
    let below = search_name fuel names name begin mid in
    let look = get_elem? names mid >>= λ n. elim (strcmp n.name name) [
      | Ordering.eq ↦ some (hit n)
      | Ordering.lt ↦ above
      | Ordering.gt ↦ below
    ] in
    if ltb begin past then look else some (miss begin)

-- `skynet_handle_findname`
unfoldable pub find_name : HandleStorage → List ℕ → Option ℕ
find_name s name = search_name (length s.names + 1) s.names name 0 (length s.names) >>= λ place.
    elim place [ hit n ↦ some n.handle | miss at ↦ some 0 ]

-- `_insert_name_before`
unfoldable pub insert_name_before : HandleStorage → List ℕ → ℕ → ℕ → Option HandleStorage
insert_name_before s name handle before =
    let cap = if leb s.name_cap (length s.names) then s.name_cap * 2 else s.name_cap in
    let entry : HandleName = record { name = name; handle = handle } in
    let inserted = record s {
      name_cap = cap;
      names = take before s.names ++ (entry ∷ drop before s.names);
    } in
    if leb cap max_slot_size then some inserted else none

-- `_insert_name` and `skynet_handle_namehandle`: whether the name was new.
unfoldable pub insert_name : HandleStorage → List ℕ → ℕ → Option (HandleStorage × Bool)
insert_name s name handle =
    search_name (length s.names + 1) s.names name 0 (length s.names) >>= λ place. elim place [
      | hit n ↦ some (s, false)
      | miss at ↦ insert_name_before s name handle at >>= λ s'. some (s', true)
    ]
