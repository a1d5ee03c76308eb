-- ===== src/Dns/Framing.antt =====
-- What a message that is sent without an error puts on the wire.
use tadori.Base.{
  ℕ, zero, suc, ◌+◌, ◌/◌, ◌%◌, ◌<◌, ◌≤◌, ◌≡◌, refl, ap, ◌∙◌, none, some, List, [], ◌∷◌, ◌++◌,
  length, take, drop, length-drop, take-append-drop, ◌==◌, inl, inr, ◌⊎◌, arith, Bool-cases,
  Option-cases,
}
use tadori.Dns.Connection.{
  IoError, short_write, Transport, Wrote, write_error, wrote, Conn, write_all,
  write_service_message,
}

Wrote-cases : (w : Wrote) → ((e : IoError) × (w ≡ write_error e)) ⊎ ((n : ℕ) × (w ≡ wrote n))
Wrote-cases (write_error e) = inl (e, refl)
Wrote-cases (wrote n) = inr (n, refl)

write_all-sent :
    (conn : Conn) (turns calls : ℕ) (value : List ℕ)
    → (write_all conn turns calls value).0 ≡ none
    → (write_all conn turns calls value).2 ≡ value
unfolding write_all
write_all-sent conn turns calls [] h = refl
write_all-sent conn zero calls (b ∷ bs) h = absurd (ground (arith, h))
write_all-sent conn (suc turns) calls (b ∷ bs) h = elim (Wrote-cases (conn.write calls (b ∷ bs))) [
  | inl (e, w) ↦ absurd (let no : some e ≡ none = rw (write_all, w) at h in ground (arith, no))
  | inr (n, w) ↦ elim (Bool-cases (n == 0)) [
    | inl none_taken ↦ absurd (
        let no : some short_write ≡ none = rw (write_all, w, none_taken) at h in ground (arith, no))
    | inr taken ↦
        rw (write_all, w, taken)
          (ap (λ l. take n (b ∷ bs) ++ l)
              (write_all-sent conn turns (calls + 1) (drop n (b ∷ bs))
                (rw (write_all, w, taken) at h))
            ∙ take-append-drop n (b ∷ bs))
  ]
]

-- With as many turns as there are bytes, or more, the turns do not run out.
pub write_all_turns :
    (conn : Conn) (m n calls : ℕ) (value : List ℕ)
    → length value ≤ m
    → length value ≤ n
    → write_all conn m calls value ≡ write_all conn n calls value
unfolding write_all
write_all_turns conn m n calls [] h k = refl
write_all_turns conn zero n calls (b ∷ bs) h k = absurd (omega (arith, h))
write_all_turns conn (suc m) zero calls (b ∷ bs) h k = absurd (omega (arith, k))
write_all_turns conn (suc m) (suc n) calls (b ∷ bs) h k =
    elim (Wrote-cases (conn.write calls (b ∷ bs))) [
      | inl (e, w) ↦ rw (write_all, w) refl
      | inr (taken, w) ↦ elim (Bool-cases (taken == 0)) [
        | inl stuck ↦ rw (write_all, w, stuck) refl
        | inr goes ↦
            let some_taken : 1 ≤ taken = ground (arith, goes) in
            let left = length-drop taken (b ∷ bs) in
            rw
              (
                write_all,
                w,
                goes,
                write_all_turns conn m n (calls + 1) (drop taken (b ∷ bs))
                    (omega (arith, left, some_taken, h)) (omega (arith, left, some_taken, k)),
              )
              refl
      ]
    ]

-- The message, with its length in front over TCP.
abbrev pub framed : Transport → List ℕ → List ℕ
framed Transport.udp query = query
framed Transport.tcp query = (length query / 256) ∷ (length query % 256) ∷ query

-- Where a message shorter than 65536 bytes is written without an error, however the connection
-- splits the writes, the bytes that it has taken are the message over UDP, and over TCP the length
-- in two bytes followed by the message.
pub write_service_message-sent :
    (conn : Conn) (transport : Transport) (query : List ℕ)
    → length query < 65536
    → (write_service_message conn transport query).0 ≡ none
    → (write_service_message conn transport query).2 ≡ framed transport query
unfolding write_service_message
write_service_message-sent conn Transport.udp query short h = write_all-sent conn _ 0 query h
write_service_message-sent conn Transport.tcp query short h =
    let size : length query % 65536 ≡ length query = omega (arith, short) in
    let header = ((length query % 65536) / 256) ∷ ((length query % 65536) % 256) ∷ [] in
    elim (Option-cases (write_all conn 2 0 header).0) [
      | inr (e, broken) ↦ absurd (
          let no : some e ≡ none = rw (write_service_message, broken, broken) at h in
          ground (arith, no))
      | inl begun ↦
          let both = write_all-sent conn 2 0 header begun in
          let rest =
            write_all-sent conn (length query) (write_all conn 2 0 header).1 query
              (rw (write_service_message, begun) at h) in
          rw (write_service_message, begun, both, rest, size) refl
    ]
