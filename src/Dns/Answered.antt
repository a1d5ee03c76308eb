-- ===== src/Dns/Answered.antt =====
-- What an attempt that succeeded has seen.
use tadori.Base.{
  ℕ, ◌≡◌, refl, sym, ◌∙◌, subst, String, true, false, List, length, leb, ltb, ◌==◌, ◌||◌, inl, inr,
  ◌⊎◌, arith, Bool-cases, Option-cases,
}
use tadori.Dns.Parse.{
  Outcome, Parse, parsed, failed, out_of_range, malformed, ResponseError, u16_at, first_parsed,
  parsed_injective,
}
use tadori.Dns.Message.{Response, rcode_outcome, max_service_message_size}
use tadori.Dns.Response.{Unicode, parse_response}
use tadori.Dns.Accepted.{parse_response-Accepted}
use tadori.Dns.Connection.{
  Transport, Conn, Dial, dial_error, no_connection, connected, write_service_message,
}
use tadori.Dns.Total.{Got-cases}
use tadori.Dns.Attempt.{
  Attempt, new_attempt, read_response, read_header, read_answer, exchange, query_transport,
}

-- A response of the server to this query that answers it, or says that the name does not exist.
abbrev pub IsAnswered : ℕ → Attempt → Type 0
IsAnswered id a =
    (a.response_received ≡ true)
    × (a.response_transaction_id ≡ id)
    × (a.truncated ≡ false)
    × (((a.rcode ≡ 0) × (a.outcome ≡ Outcome.success))
        ⊎ ((a.rcode ≡ 3) × (a.outcome ≡ Outcome.negative_response)))

-- The header is read as it stands.
read_header-reads :
    (bytes : List ℕ) (a b : Attempt) (id : ℕ)
    → a.success ≡ false
    → read_header bytes a ≡ parsed b
    → (b.success ≡ false)
      × (b.response_received ≡ a.response_received)
      × (leb 12 (length bytes) ≡ true → u16_at bytes 0 ≡ parsed id → b.response_transaction_id ≡ id)
unfolding read_header
read_header-reads bytes a b id fails h = elim (Bool-cases (leb 12 (length bytes))) [
  | inr short ↦
      let same = parsed_injective (rw (read_header, short) at h) in
      let no : leb 12 (length bytes) ≡ true
          → u16_at bytes 0 ≡ parsed id
          → b.response_transaction_id ≡ id =
        λ long. absurd (ground (arith, short, long)) in
      (
        subst (λ c. c.success ≡ false) same fails,
        subst (λ c. c.response_received ≡ a.response_received) same refl,
        no,
      )
  | inl long ↦
      let (got_id, e0, h0) = first_parsed (u16_at bytes 0) _ (rw (read_header, long) at h) in
      let (flags, _, h2) = first_parsed (u16_at bytes 2) _ h0 in
      let (_, _, h4) = first_parsed (u16_at bytes 4) _ h2 in
      let (_, _, h6) = first_parsed (u16_at bytes 6) _ h4 in
      let (_, _, h8) = first_parsed (u16_at bytes 8) _ h6 in
      let (_, _, h10) = first_parsed (u16_at bytes 10) _ h8 in
      let same = parsed_injective h10 in
      (
        subst (λ c. c.success ≡ false) same fails,
        subst (λ c. c.response_received ≡ a.response_received) same refl,
        λ _ e. subst (λ c. c.response_transaction_id ≡ id) same (parsed_injective (sym e0 ∙ e)),
      )
]

Parse-cases {ℓ} :
    {A : Type ℓ} (m : Parse A)
    → ((a : A) × (m ≡ parsed a)) ⊎ (((e : ResponseError) × (m ≡ failed e)) ⊎ (m ≡ out_of_range))
Parse-cases (parsed a) = inl (a, refl)
Parse-cases (failed e) = inr (inl (e, refl))
Parse-cases out_of_range = inr (inr refl)

-- What a read ends with has not succeeded.
Ends : Attempt ⊎ List ℕ → Type 0
Ends (inl a) = a.success ≡ false
Ends (inr _) = Unit {0}

read_response-Ends :
    (conn : Conn) (transport : Transport) (a : Attempt) (x : Attempt ⊎ List ℕ)
    → a.success ≡ false
    → read_response conn transport a ≡ parsed x
    → Ends x
unfolding read_response Ends
read_response-Ends conn Transport.udp a x fails h =
    elim (Got-cases (conn.read 0 max_service_message_size)) [
      | inl (e, g) ↦ subst Ends (parsed_injective (rw (read_response, g) at h)) fails
      | inr (bytes, g) ↦ subst Ends (parsed_injective (rw (read_response, g) at h)) tt
    ]
read_response-Ends conn Transport.tcp a x fails h = elim (Got-cases (conn.read 0 2)) [
  | inl (e, g) ↦ subst Ends (parsed_injective (rw (read_response, g) at h)) fails
  | inr (header, g) ↦
      let (size, _, next) = first_parsed (u16_at header 0) _ (rw (read_response, g) at h) in
      elim (Bool-cases (size == 0 || ltb max_service_message_size size)) [
        | inl wrong ↦ subst Ends (parsed_injective (rw wrong at next)) fails
        | inr fits ↦ elim (Got-cases (conn.read 1 size)) [
          | inl (e, k) ↦ subst Ends (parsed_injective (rw (fits, k) at next)) fails
          | inr (bytes, k) ↦ subst Ends (parsed_injective (rw (fits, k) at next)) tt
        ]
      ]
]

module _ (unicode : Unicode) where
  parsed_whole :
      (bytes : List ℕ) (id : ℕ) (r : Response)
      → parse_response unicode bytes id ≡ parsed r
      → leb 12 (length bytes) ≡ true
  unfolding parse_response
  parsed_whole bytes id r h = elim (Bool-cases (ltb (length bytes) 12)) [
    | inl short ↦
        absurd
          (let no : malformed ≡ parsed r = rw (parse_response, short) at h in ground (arith, no))
    | inr long ↦ ground (arith, long)
  ]

  rcode-answered :
      (r : Response)
      → r.success ≡ true
      → ((r.truncated ≡ true) × (r.outcome ≡ Outcome.truncated_response) × (r.success ≡ false))
        ⊎ ((r.truncated ≡ false)
            × (r.outcome ≡ (rcode_outcome r.rcode).0)
            × (r.success ≡ (rcode_outcome r.rcode).1))
      → (r.truncated ≡ false)
        × (((r.rcode ≡ 0) × (r.outcome ≡ Outcome.success))
            ⊎ ((r.rcode ≡ 3) × (r.outcome ≡ Outcome.negative_response)))
  rcode-answered r wins h = ground (arith, wins, h)

  read_answer-IsAnswered :
      (bytes : List ℕ) (id : ℕ) (a b : Attempt)
      → a.success ≡ false
      → read_answer unicode bytes id a ≡ parsed b
      → b.success ≡ true
      → IsAnswered id b
  unfolding read_answer
  read_answer-IsAnswered bytes id a b fails h wins =
      let start = record a { response_received = true; response_bytes = length bytes } in
      let (c, header, next) = first_parsed (read_header bytes start) _ h in
      let (still, received, ids) = read_header-reads bytes start c id fails header in
      elim (Parse-cases (parse_response unicode bytes id)) [
        | inl (r, e) ↦
            let same = parsed_injective (rw e at next) in
            let (_, _, same_id, _, _, _, _, _, kind) =
              parse_response-Accepted unicode bytes id r e in
            let (whole, answer) =
              rcode-answered r (subst (λ d. d.success ≡ true) (sym same) wins) kind in
            subst (IsAnswered id) same
              (received, ids (parsed_whole bytes id r e) same_id, whole, answer)
        | inr (inl (e, f)) ↦
            let same = parsed_injective (rw f at next) in
            absurd (
              let no = sym still ∙ subst (λ d. d.success ≡ true) (sym same) wins in
              ground (arith, no))
        | inr (inr f) ↦
            absurd (let no : out_of_range ≡ parsed b = rw f at next in ground (arith, no))
      ]

  after_read :
      (id : ℕ) (a b : Attempt) (x : Attempt ⊎ List ℕ)
      → a.success ≡ false
      → Ends x
      → (elim x [ inl ended ↦ parsed ended | inr bytes ↦ read_answer unicode bytes id a ])
        ≡ parsed b
      → b.success ≡ true
      → IsAnswered id b
  unfolding Ends
  after_read id a b (inl ended) fails ends h wins = absurd (
      let no = sym ends ∙ subst (λ d. d.success ≡ true) (sym (parsed_injective h)) wins in
      ground (arith, no))
  after_read id a b (inr bytes) fails ends h wins = read_answer-IsAnswered bytes id a b fails h wins

  -- An attempt that returns with success has received a response with the identifier of the query
  -- that is not truncated, and its code is 0 with the outcome success or 3 with the outcome of a
  -- negative response.
  pub query_transport-IsAnswered :
      (dial : Dial) (transport : Transport) (requested candidate : String) (query : List ℕ)
      (id number : ℕ) (b : Attempt)
      → query_transport unicode dial transport requested candidate query id number ≡ parsed b
      → b.success ≡ true
      → IsAnswered id b
  unfolding query_transport exchange
  query_transport-IsAnswered (dial_error e) transport requested candidate query id number b h wins =
      absurd (
        let no = subst (λ d. d.success ≡ true) (sym (parsed_injective h)) wins in
        ground (arith, no))
  query_transport-IsAnswered no_connection transport requested candidate query id number b h wins =
      absurd (
        let no = subst (λ d. d.success ≡ true) (sym (parsed_injective h)) wins in
        ground (arith, no))
  query_transport-IsAnswered (connected conn) transport requested candidate query id number b h
        wins =
      let a = record (new_attempt candidate requested number id) { endpoint = conn.endpoint } in
      elim (Option-cases (write_service_message conn transport query).0) [
        | inr (e, broken) ↦
            let same = parsed_injective (rw (query_transport, exchange, broken) at h) in
            absurd (let no = subst (λ d. d.success ≡ true) (sym same) wins in ground (arith, no))
        | inl sent ↦
            let (x, read, next) =
              first_parsed (read_response conn transport a) _
                (rw (query_transport, exchange, sent) at h) in
            after_read id a b x refl (read_response-Ends conn transport a x refl read) next wins
      ]
