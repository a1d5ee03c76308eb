-- ===== src/Dns/Parse.antt =====
-- How internal/probe/dns/service.go reads a datagram: a value, an error of the parser, or the panic
-- of an index that is out of range.
use tadori.Base.{
  String, ◌≡◌, refl, ap, ℕ, ◌+◌, ◌*◌, none, some, List, get_elem?, length, ltb, take, drop,
  if◌then◌else◌,
}

-- `DNSServiceOutcome`
pub data Outcome : Type 0 where
  success negative_response refused servfail protocol_failure malformed_response : Outcome
  truncated_response timeout transport_failure cancellation not_attempted no_resolved_endpoint
        unknown :
      Outcome

-- `diagnosticResponseError` without its message: the kind and the outcome.
pub record ResponseError : Type 0 where
  pub kind : String
  pub outcome : Outcome

pub data Parse {ℓ} (A : Type ℓ) : Type ℓ where
  parsed : A → Parse A
  failed : ResponseError → Parse A
  out_of_range : Parse A

infixl 5 ◌>>=◌
abbrev pub ◌>>=◌ {κ ℓ} : {S : Type κ} {T : Type ℓ} → Parse S → (S → Parse T) → Parse T
parsed s >>= next = next s
failed e >>= next = failed e
out_of_range >>= next = out_of_range

abbrev pub malformed {ℓ} : {A : Type ℓ} → Parse A
malformed = failed (record { kind = "malformed_response"; outcome = malformed_response })

abbrev pub protocol_error {ℓ} : {A : Type ℓ} → String → Parse A
protocol_error kind = failed (record { kind = kind; outcome = protocol_failure })

abbrev pub trailing_data {ℓ} : {A : Type ℓ} → Parse A
trailing_data = failed (record { kind = "trailing_data"; outcome = malformed_response })

-- `data[i]`
abbrev pub byte_at : List ℕ → ℕ → Parse ℕ
byte_at bytes i = elim (get_elem? bytes i) [ none ↦ out_of_range | some b ↦ parsed b ]

-- `binary.BigEndian.Uint16(data[i : i+2])`
abbrev pub u16_at : List ℕ → ℕ → Parse ℕ
u16_at bytes i = do high ← byte_at bytes i; low ← byte_at bytes (i + 1); parsed (high * 256 + low)

-- `data[from : from+size]`
abbrev pub slice : List ℕ → ℕ → ℕ → Parse (List ℕ)
slice bytes from size =
    if ltb (length bytes) (from + size) then out_of_range else parsed (take size (drop from bytes))

-- A chain that gives a value has a first part that gives one.
pub first_parsed {κ ℓ} :
    {S : Type κ} {T : Type ℓ} (first : Parse S) (next : S → Parse T) {t : T}
    → (first >>= next) ≡ parsed t
    → (s : S) × (first ≡ parsed s) × (next s ≡ parsed t)
first_parsed (parsed s) next e = (s, refl, e)
first_parsed (failed err) next e = cc
first_parsed out_of_range next e = cc

value_or {ℓ} : {A : Type ℓ} → A → Parse A → A
value_or a (parsed b) = b
value_or a _ = a

pub parsed_injective {ℓ} : {A : Type ℓ} {a b : A} → parsed a ≡ parsed b → a ≡ b
unfolding value_or
parsed_injective {a = a} e = ap (value_or a) e
