-- ===== src/Dns/Connection.antt =====
-- internal/probe/dns/service.go: what the DNS service probe asks of an error and of a connection,
-- `serviceErrorKind`, `serviceOutcomeForError`, `writeServiceMessage` and `writeAll`.
use tadori.Base.{
  ℕ, zero, suc, ◌+◌, ◌/◌, ◌%◌, String, Bool, false, Option, none, some, List, [], ◌∷◌, ◌++◌, length,
  take, drop, ◌==◌, str_eq, if◌then◌else◌,
}
use tadori.Dns.Parse.{Outcome}

-- What `errors.Is` and `errors.As` say of an error.
pub record IoError : Type 0 where
  pub deadline_exceeded : Bool
  pub canceled : Bool
  pub connection_refused : Bool
  pub network_timeout : Bool

-- `io.ErrShortWrite`
abbrev pub short_write : IoError
short_write = record {
  deadline_exceeded = false;
  canceled = false;
  connection_refused = false;
  network_timeout = false;
}

abbrev pub service_error_kind : IoError → String
service_error_kind e =
    if e.deadline_exceeded
    then "timeout"
    else if e.canceled
    then "canceled"
    else if e.connection_refused
    then "connection_refused"
    else if e.network_timeout
    then "timeout"
    else "transport_failure"

abbrev pub service_outcome_for_error : IoError → Outcome
service_outcome_for_error e =
    if e.deadline_exceeded
    then Outcome.timeout
    else if e.canceled
    then Outcome.cancellation
    else if str_eq (service_error_kind e) "timeout"
    then Outcome.timeout
    else Outcome.transport_failure

pub data Transport : Type 0 where
  udp tcp : Transport

abbrev pub transport_name : Transport → String
transport_name Transport.udp = "udp"
transport_name Transport.tcp = "tcp"

pub data Wrote : Type 0 where
  write_error : IoError → Wrote
  wrote : ℕ → Wrote

pub data Got : Type 0 where
  read_error : IoError → Got
  got : List ℕ → Got

-- A `net.Conn`: its remote address, what the n-th `Write` of some bytes does, and what the n-th read
-- of so many bytes gives: one `Read` over UDP, one `io.ReadFull` over TCP.
pub record Conn : Type 0 where
  pub endpoint : String
  pub write : ℕ → List ℕ → Wrote
  pub read : ℕ → ℕ → Got

pub data Dial : Type 0 where
  dial_error : IoError → Dial
  no_connection : Dial
  connected : Conn → Dial

-- The error if there is one, the number of calls made so far, and the bytes that they took.
abbrev pub Written : Type 0
Written = Option IoError × ℕ × List ℕ

-- `writeAll`, with as many turns as there are bytes: a turn that goes on has taken at least one.
unfoldable pub write_all : Conn → ℕ → ℕ → List ℕ → Written
write_all conn turns calls [] = (none, calls, [])
write_all conn zero calls (b ∷ bs) = (some short_write, calls, [])
write_all conn (suc turns) calls (b ∷ bs) = elim (conn.write calls (b ∷ bs)) [
  | write_error e ↦ (some e, calls + 1, [])
  | wrote n ↦
      let rest = write_all conn turns (calls + 1) (drop n (b ∷ bs)) in
      if n == 0
      then (some short_write, calls + 1, [])
      else (rest.0, rest.1, take n (b ∷ bs) ++ rest.2)
]

-- `writeServiceMessage`; the length is a `uint16`.
unfoldable pub write_service_message : Conn → Transport → List ℕ → Written
write_service_message conn Transport.udp query = write_all conn (length query) 0 query
write_service_message conn Transport.tcp query =
    let size = length query % 65536 in
    let prefix = write_all conn 2 0 ((size / 256) ∷ (size % 256) ∷ []) in
    let body = write_all conn (length query) prefix.1 query in
    elim prefix.0 [ some e ↦ prefix | none ↦ (body.0, body.1, prefix.2 ++ body.2) ]
