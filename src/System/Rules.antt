-- ===== src/System/Rules.antt =====
-- What the TLM-2.0 base protocol asks of a target.
use pcie_systemc_linux.Prelude.{
  ℕ, zero, suc, ◌+◌, ◌≤◌, ◌≡◌, ◌≢◌, refl, List, [], ◌∷◌, length, ◌++◌, drop, drop_all,
  length-append, arith,
}
use pcie_systemc_linux.Tlm.{Payload, Response, incomplete, Outcome, Transport, overwrite}

-- The buffer is not shorter than it was, and behind the first `len` bytes it is the same.
abbrev pub IsWithin : ℕ → (before after : List ℕ) → Type 0
IsWithin len before after = (length before ≤ length after) × (drop len after ≡ drop len before)

-- A target answers the transaction, does not go back in time, leaves the command, the address and
-- the length alone, and writes only to the bytes of the data.
pub record Complies {S : Type 0} (trans : Payload) (delay : ℕ) (r : Outcome S) : Type 0 where
  pub answered : r.trans.response ≢ incomplete
  pub later : delay ≤ r.delay
  pub command : r.trans.command ≡ trans.command
  pub address : r.trans.address ≡ trans.address
  pub size : r.trans.length ≡ trans.length
  pub within : IsWithin trans.length trans.buffer r.trans.buffer

abbrev pub IsCompliant : {S : Type 0} → Transport S → Type 0
IsCompliant {S = S} transport =
    (s : S) (trans : Payload) (delay : ℕ) → Complies trans delay (transport s trans delay)

pub overwrite-IsWithin :
    (bytes buffer : List ℕ) (len : ℕ)
    → length bytes ≤ len
    → IsWithin len buffer (overwrite buffer bytes)
overwrite-IsWithin [] buffer len h = (omega arith, refl)
overwrite-IsWithin (b ∷ bytes) buffer zero h = absurd (omega arith)
overwrite-IsWithin (b ∷ bytes) [] (suc len) h =
    (omega arith, drop_all (bytes ++ []) len (omega (arith, length-append bytes [])))
overwrite-IsWithin (b ∷ bytes) (x ∷ buffer) (suc len) h =
    let (size, rest) = overwrite-IsWithin bytes buffer len (omega arith) in
    (omega (arith, size), rest)

pub same-IsWithin : (len : ℕ) (buffer : List ℕ) → IsWithin len buffer buffer
same-IsWithin len buffer = (omega arith, refl)

-- An answer with new data, and one with a response and a delay only.
pub with_data :
    {S : Type 0} (s : S) (trans : Payload) (delay more : ℕ) (buffer : List ℕ)
    → IsWithin trans.length trans.buffer buffer
    → Complies trans delay (record {
      state = s;
      trans = record trans { buffer = buffer; response = Response.ok };
      delay = delay + more;
    })
with_data s trans delay more buffer h = record {
  answered = λ e. absurd (grind arith);
  later = omega arith;
  command = refl;
  address = refl;
  size = refl;
  within = h;
}

pub with_response :
    {S : Type 0} (s : S) (trans : Payload) (delay : ℕ) (response : Response)
    → response ≢ incomplete
    → Complies trans delay
        (record { state = s; trans = record trans { response = response }; delay = delay })
with_response s trans delay response h = record {
  answered = h;
  later = omega arith;
  command = refl;
  address = refl;
  size = refl;
  within = same-IsWithin trans.length trans.buffer;
}
