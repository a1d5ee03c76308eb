-- ===== src/Dns/Total.antt =====
-- The probe gives a result, whatever the network does.
use tadori.Base.{
  ℕ, zero, suc, ◌+◌, ◌*◌, ◌<◌, ◌≡◌, refl, String, Bool, true, false, Option, none, some, List, [],
  ◌∷◌, length, ltb, leb, ◌==◌, get_elem?-some, ◌⊎◌, inl, inr, arith, Option-cases, ◌||◌,
  if◌then◌else◌, str_eq,
}
use tadori.Route.Netip.{normalize_addr}
use tadori.Dns.Parse.{ResponseError, Parse, parsed, failed, out_of_range, ◌>>=◌, byte_at, u16_at}
use tadori.Dns.Message.{max_service_message_size}
use tadori.Dns.Response.{Unicode}
use tadori.Dns.Safety.{Safe, gives, rejects, parse_response-Safe}
use tadori.Dns.Connection.{
  IoError, Transport, Got, got, read_error, Conn, Dial, dial_error, no_connection, connected,
  write_service_message,
}
use tadori.Dns.Attempt.{
  Attempt, read_response, read_header, read_answer, with_response, exchange, query_transport,
}
use tadori.Dns.Lane.{
  Text, Network, Tally, record_attempt, Progress, going, done, normalize_service_candidate,
  try_retries, try_candidates, run_transport, new_tally,
}

abbrev pub Gives {ℓ} : {A : Type ℓ} → Parse A → Type ℓ
Gives {A = A} m = (a : A) × (m ≡ parsed a)

pub Gives->>= {κ ℓ} :
    {S : Type κ} {T : Type ℓ} (m : Parse S) (next : S → Parse T)
    → Gives m
    → ((s : S) → Gives (next s))
    → Gives (m >>= next)
Gives->>= m next (s, e) k = rw e (k s)

pub Gives-if {ℓ} :
    {A : Type ℓ} (b : Bool) (x y : Parse A)
    → (b ≡ true → Gives x)
    → (b ≡ false → Gives y)
    → Gives (if b then x else y)
Gives-if true x y hx hy = hx refl
Gives-if false x y hx hy = hy refl

Gives-u16_at : (bytes : List ℕ) (i : ℕ) → i + 1 < length bytes → Gives (u16_at bytes i)
Gives-u16_at bytes i h =
    let (high, e) = get_elem?-some bytes i (omega arith) in
    let (low, f) = get_elem?-some bytes (i + 1) h in (high * 256 + low, rw (byte_at, e, f) refl)

-- `io.ReadFull` over the two bytes of a length gives both or an error.
abbrev pub ReadsFull : Dial → Type 0
ReadsFull (connected conn) = (header : List ℕ) → conn.read 0 2 ≡ got header → length header ≡ 2
ReadsFull _ = Unit {0}

pub Got-cases :
    (g : Got) → ((e : IoError) × (g ≡ read_error e)) ⊎ ((bytes : List ℕ) × (g ≡ got bytes))
Got-cases (read_error e) = inl (e, refl)
Got-cases (got bytes) = inr (bytes, refl)

Gives-read_response :
    (conn : Conn) (transport : Transport) (a : Attempt)
    → ReadsFull (connected conn)
    → Gives (read_response conn transport a)
unfolding read_response
Gives-read_response conn Transport.udp a full =
    elim (Got-cases (conn.read 0 max_service_message_size)) [
      | inl (e, g) ↦ rw (read_response, g) (_, refl)
      | inr (bytes, g) ↦ rw (read_response, g) (_, refl)
    ]
Gives-read_response conn Transport.tcp a full = elim (Got-cases (conn.read 0 2)) [
  | inl (e, g) ↦ rw (read_response, g) (_, refl)
  | inr (header, g) ↦
      rw (read_response, g)
        (Gives->>= (u16_at header 0) _
          (Gives-u16_at header 0 (let two = full header g in omega (arith, two)))
          λ size.
            Gives-if (size == 0 || ltb max_service_message_size size) _ _ (λ _. (_, refl))
              λ _. elim (Got-cases (conn.read 1 size)) [
                | inl (e, h) ↦ rw h (_, refl)
                | inr (bytes, h) ↦ rw h (_, refl)
              ])
]

Gives-read_header : (bytes : List ℕ) (a : Attempt) → Gives (read_header bytes a)
unfolding read_header
Gives-read_header bytes a =
    Gives-if (leb 12 (length bytes)) _ _
      (λ whole. Gives->>= (u16_at bytes 0) _ (Gives-u16_at bytes 0 (ground (arith, whole))) λ b0.
        Gives->>= (u16_at bytes 2) _ (Gives-u16_at bytes 2 (ground (arith, whole))) λ b2.
          Gives->>= (u16_at bytes 4) _ (Gives-u16_at bytes 4 (ground (arith, whole))) λ b4.
            Gives->>= (u16_at bytes 6) _ (Gives-u16_at bytes 6 (ground (arith, whole))) λ b6.
              Gives->>= (u16_at bytes 8) _ (Gives-u16_at bytes 8 (ground (arith, whole))) λ b8.
                Gives->>= (u16_at bytes 10) _ (Gives-u16_at bytes 10 (ground (arith, whole)))
                  λ b10. (_, refl))
      (λ _. (a, refl))

module _ (unicode : Unicode) where
  Safe-Gives :
      {S : Type 0} {T : Type 0} {m : Parse S}
      → Safe m
      → (with_value : S → T) → (with_failure : ResponseError → T)
      → Gives {A = T} (elim m [
        | parsed r ↦ parsed (with_value r)
        | failed e ↦ parsed (with_failure e)
        | out_of_range ↦ out_of_range
      ])
  Safe-Gives (gives r) f g = (f r, refl)
  Safe-Gives (rejects e) f g = (g e, refl)

  Gives-read_answer :
      (bytes : List ℕ) (id : ℕ) (a : Attempt) → Gives (read_answer unicode bytes id a)
  unfolding read_answer
  Gives-read_answer bytes id a =
      Gives->>=
        (read_header bytes (record a { response_received = true; response_bytes = length bytes })) _
        (Gives-read_header bytes _)
        λ b.
          Safe-Gives (parse_response-Safe unicode bytes id) (with_response b)
            (λ e. record b { error_kind = e.kind; outcome = e.outcome })

  Gives-answered :
      (query : List ℕ) (id : ℕ) (a : Attempt) (response : Attempt ⊎ List ℕ)
      → Gives {A = Attempt}
          (elim response [ inl ended ↦ parsed ended | inr bytes ↦ read_answer unicode bytes id a ])
  Gives-answered query id a (inl ended) = (ended, refl)
  Gives-answered query id a (inr bytes) = Gives-read_answer bytes id a

  Gives-query_transport :
      (dial : Dial) (transport : Transport) (requested candidate : String) (query : List ℕ)
      (id number : ℕ)
      → ReadsFull dial
      → Gives (query_transport unicode dial transport requested candidate query id number)
  unfolding query_transport exchange
  Gives-query_transport (dial_error e) transport requested candidate query id number full =
      (_, refl)
  Gives-query_transport no_connection transport requested candidate query id number full = (_, refl)
  Gives-query_transport (connected conn) transport requested candidate query id number full =
      elim (Option-cases (write_service_message conn transport query).0) [
        | inr (e, broken) ↦ rw (exchange, broken) (_, refl)
        | inl sent ↦
            rw (exchange, sent)
              (Gives->>= (read_response conn transport _) _
                (Gives-read_response conn transport _ full)
                λ response. Gives-answered query id _ response)
      ]

module _ (unicode : Unicode) (text : Text) (network : Network)
    (full : (made : ℕ) → ReadsFull (network.dial made)) where
  module _ (transport : Transport) (query : List ℕ) (id port max_attempts : ℕ) where
    Gives-try_retries :
        (left number : ℕ) (address : String) (t : Tally)
        → Gives (
            try_retries unicode text network transport query id port max_attempts left number
              address t)
    unfolding try_retries
    Gives-try_retries zero number address t = (_, refl)
    Gives-try_retries (suc left) number address t =
        elim (Option-cases (network.context_error t.attempts)) [
          | inr (e, stopped) ↦ rw (try_retries, stopped) (_, refl)
          | inl alive ↦
              rw (try_retries, alive)
                (Gives->>=
                  (query_transport unicode (network.dial t.attempts) transport
                    (text.join_host_port address port) address query id number)
                  _
                  (Gives-query_transport unicode (network.dial t.attempts) transport _ address query
                    id number (full t.attempts))
                  λ a.
                    Gives-if a.success _ _ (λ _. (_, refl))
                      (λ _. Gives-try_retries left (number + 1) address (record_attempt a t)))
        ]

    Gives-next :
        (cs : List String) (p : Progress)
        → ((t : Tally)
            → Gives (try_candidates unicode text network transport query id port max_attempts cs t))
        → Gives {A = Progress} (elim p [
          | done after success ↦ parsed (done after success)
          | going after ↦
              try_candidates unicode text network transport query id port max_attempts cs after
        ])
    Gives-next cs (done t a) k = (_, refl)
    Gives-next cs (going t) k = k t

    Gives-try_candidates :
        (cs : List String) (t : Tally)
        → Gives (try_candidates unicode text network transport query id port max_attempts cs t)
    unfolding try_candidates
    Gives-try_candidates [] t = (_, refl)
    Gives-try_candidates (c ∷ cs) t =
        let address = normalize_service_candidate text c in
        Gives-if (str_eq address "") _ _ (λ _. Gives-try_candidates cs t)
          λ _. elim (Option-cases (text.parse_addr address)) [
            | inl unresolved ↦ rw unresolved (Gives-try_candidates cs _)
            | inr (a, resolved) ↦ rw resolved (
                Gives->>=
                  (try_retries unicode text network transport query id port max_attempts
                    max_attempts 1 (text.addr_text (normalize_addr a)) t)
                  _ (Gives-try_retries max_attempts 1 (text.addr_text (normalize_addr a)) t)
                  λ p. Gives-next cs p (Gives-try_candidates cs))
          ]

  pub Gives-run_transport :
      (ended : Option IoError) (requested : String) (candidates : List String)
      (transport : Transport) (query : List ℕ) (id port max_attempts : ℕ) (fallback : Bool)
      (reason : String)
      → Gives (
          run_transport unicode text network ended requested candidates transport query id port
            max_attempts fallback reason)
  unfolding run_transport
  Gives-run_transport (some err) requested candidates transport query id port max_attempts fallback
        reason =
      (_, refl)
  Gives-run_transport none requested candidates transport query id port max_attempts fallback
        reason =
      Gives->>=
        (try_candidates unicode text network transport query id port max_attempts candidates
          new_tally)
        _ (Gives-try_candidates transport query id port max_attempts candidates new_tally)
        λ p. (_, refl)
