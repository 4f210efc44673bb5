-- ===== src/Rc.antt =====
-- src/modules/rc.cpp: the inputs of an RC module: for each input the set of the DCC addresses that
-- are seen there.
pub mod Laws
pub mod Values
pub mod Handlers
use mtb_daemon.Base.{
  ℕ, ◌+◌, ◌*◌, ◌/◌, ◌%◌, Bool, true, false, List, [], ◌∷◌, ltb, ◌==◌, if◌then◌else◌, get_or, set,
  replicate,
}

-- RC_IN_CNT.
abbrev pub rc_in_cnt : ℕ
rc_in_cnt = 8

-- std::set: the addresses in ascending order, each once.
unfoldable pub insert : ℕ → List ℕ → List ℕ
insert addr [] = addr ∷ []
insert addr (a ∷ as_) =
    let rest = insert addr as_ in
    if addr == a then a ∷ as_ else if ltb addr a then addr ∷ a ∷ as_ else a ∷ rest

-- The input and the address of a pair of bytes.
unfoldable pub input_of : ℕ → ℕ
input_of high = high / 32

unfoldable pub addr_of : ℕ → ℕ → ℕ
addr_of high low = low + high % 32 * 256

-- The loop over pairs of bytes.
unfoldable pub store_pairs : List ℕ → List (List ℕ) → List (List ℕ)
store_pairs (high ∷ low ∷ bytes) inputs =
    store_pairs bytes
      (set inputs (input_of high) (insert (addr_of high low) (get_or inputs (input_of high) [])))
store_pairs _ inputs = inputs

unfoldable pub store_rc_inputs : List ℕ → List (List ℕ)
store_rc_inputs bytes = store_pairs bytes (replicate rc_in_cnt [])
