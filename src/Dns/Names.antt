-- ===== src/Dns/Names.antt =====
-- Names in DNS messages: what the encoder of the query writes, the reader reads.
use mathlib.Core.Path.{ap₂}
use tadori.Base.{
  ℕ, zero, suc, ◌+◌, ◌/◌, ◌%◌, ◌<◌, ◌≤◌, ◌≡◌, refl, sym, ap, ◌∙◌, Bool, true, false, ◌||◌, some,
  List, [], ◌∷◌, ◌++◌, length, take, drop, get_elem?, length-append, append_assoc, append-nil, ltb,
  leb, ◌==◌, arith, Option-cases, inl, inr,
}
use tadori.Dns.Parse.{parsed, byte_at}
use tadori.Dns.Message.{join, encode_labels, Turn, turn, read_turns, read_name}

get_elem?-middle :
    (pre : List ℕ) (x : ℕ) (post : List ℕ) → get_elem? (pre ++ x ∷ post) (length pre) ≡ some x
get_elem?-middle [] x post = refl
get_elem?-middle (y ∷ pre) x post = get_elem?-middle pre x post

take-length : (l post : List ℕ) → take (length l) (l ++ post) ≡ l
take-length [] post = refl
take-length (x ∷ l) post = ap (◌∷◌ x) (take-length l post)

drop-middle :
    (pre : List ℕ) (x : ℕ) (post : List ℕ) → drop (length pre + 1) (pre ++ x ∷ post) ≡ post
drop-middle [] x post = refl
drop-middle (y ∷ pre) x post =
    let e : suc (length pre) + 1 ≡ suc (length pre + 1) = omega arith in
    rw e (drop-middle pre x post)

turn-label :
    (again : Turn) (bytes : List ℕ) (len position consumed : ℕ) (jumped : Bool) (visited : List ℕ)
    (labels : List (List ℕ))
    → 0 < len
    → len ≤ 63
    → position + 1 + len ≤ length bytes
    → turn again bytes len position consumed jumped visited labels
      ≡ again
          (position + 1 + len)
          consumed
          jumped
          visited
          (labels ++ take len (drop (position + 1) bytes) ∷ [])
turn-label again bytes len position consumed jumped visited labels some_byte short inside =
    let zero_no : (len == 0) ≡ false = ground arith in
    let pointer_no : ((len / 64) % 4 == 3) ≡ false = ground arith in
    let label_yes : ((len / 64) % 4 == 0) ≡ true = ground arith in
    let fits : (ltb 63 len || ltb (length bytes) (position + 1 + len)) ≡ false = ground arith in
    let whole : ltb (length bytes) (position + 1 + len) ≡ false = ground arith in
    rw (zero_no, pointer_no, label_yes, fits, whole) refl

-- A turn at a label.
read_turns-label :
    (turns : ℕ) (pre l post : List ℕ) (consumed : ℕ) (jumped : Bool) (visited : List ℕ)
    (labels : List (List ℕ))
    → 0 < length l
    → length l ≤ 63
    → read_turns
        (suc turns)
        (pre ++ length l ∷ (l ++ post))
        (length pre)
        consumed
        jumped
        visited
        labels
      ≡ read_turns turns
          (pre ++ length l ∷ (l ++ post))
          (length pre + 1 + length l)
          consumed
          jumped
          visited
          (labels ++ l ∷ [])
unfolding read_turns
read_turns-label turns pre l post consumed jumped visited labels some_byte short =
    let bytes = pre ++ length l ∷ (l ++ post) in
    let size : length bytes ≡ length pre + (1 + (length l + length post)) =
      omega (arith, length-append pre (length l ∷ (l ++ post)), length-append l post) in
    let inside : leb (length bytes) (length pre) ≡ false = ground (arith, size) in
    rw (inside, byte_at, get_elem?-middle pre (length l) (l ++ post))
      (turn-label (read_turns turns bytes) bytes (length l) (length pre) consumed jumped visited
          labels some_byte short (omega (arith, size))
        ∙ ap
            (λ k.
              read_turns turns bytes (length pre + 1 + length l) consumed jumped visited
                (labels ++ k ∷ []))
            (ap (take (length l)) (drop-middle pre (length l) (l ++ post)) ∙ take-length l post))

-- A turn at the end of the name.
read_turns-end :
    (turns : ℕ) (pre post : List ℕ) (consumed : ℕ) (visited : List ℕ) (labels : List (List ℕ))
    → read_turns (suc turns) (pre ++ 0 ∷ post) (length pre) consumed false visited labels
      ≡ parsed (join labels, length pre + 1)
unfolding read_turns
read_turns-end turns pre post consumed visited labels =
    let bytes = pre ++ 0 ∷ post in
    let inside : leb (length bytes) (length pre) ≡ false =
      ground (arith, length-append pre (0 ∷ post)) in
    rw (inside, byte_at, get_elem?-middle pre 0 post) refl

-- The length of a label that the encoder accepts.
encode_labels-some :
    (l : List ℕ) (ls : List (List ℕ)) (name : List ℕ)
    → encode_labels (l ∷ ls) ≡ some name
    → (rest : List ℕ) × (encode_labels ls ≡ some rest)
      × (name ≡ length l ∷ (l ++ rest))
      × (0 < length l)
      × (length l ≤ 63)
unfolding encode_labels
encode_labels-some l ls name h = elim (Option-cases (encode_labels ls)) [
  | inl e ↦ absurd (ground (arith, e))
  | inr (rest, e) ↦ (rest, e, ground (arith, e), ground (arith, e), ground (arith, e))
]

encode_labels-nil : (name : List ℕ) → encode_labels [] ≡ some name → name ≡ []
unfolding encode_labels
encode_labels-nil name e = ground arith

read_turns-encode_labels :
    (ls : List (List ℕ)) (name : List ℕ) (turns : ℕ) (pre post : List ℕ) (consumed : ℕ)
    (visited : List ℕ) (labels : List (List ℕ))
    → encode_labels ls ≡ some name
    → length ls < turns
    → read_turns turns (pre ++ (name ++ 0 ∷ post)) (length pre) consumed false visited labels
      ≡ parsed (join (labels ++ ls), length pre + length name + 1)
read_turns-encode_labels ls name zero pre post consumed visited labels e enough =
    absurd (omega arith)
read_turns-encode_labels [] name (suc turns) pre post consumed visited labels e enough =
    let none_left = encode_labels-nil name e in
    rw none_left (
      read_turns-end turns pre post consumed visited labels
      ∙ ap₂ (λ ks n. parsed (join ks, n)) (sym (append-nil labels)) (omega arith))
read_turns-encode_labels (l ∷ ls) name (suc turns) pre post consumed visited labels e enough =
    let (rest, e', whole, some_byte, short) = encode_labels-some l ls name e in
    let tail = rest ++ 0 ∷ post in
    let whole' : pre ++ (name ++ 0 ∷ post) ≡ pre ++ length l ∷ (l ++ tail) =
      ap (λ n. pre ++ (n ++ 0 ∷ post)) whole
      ∙ ap (λ r. pre ++ length l ∷ r) (append_assoc l rest (0 ∷ post)) in
    let pre' = pre ++ length l ∷ l in
    let size : length pre' ≡ length pre + 1 + length l =
      omega (arith, length-append pre (length l ∷ l)) in
    let total : length name ≡ suc (length l + length rest) =
      omega (arith, ap length whole, length-append l rest) in
    ap (λ b. read_turns (suc turns) b (length pre) consumed false visited labels) whole'
    ∙ read_turns-label turns pre l tail consumed false visited labels some_byte short
    ∙ ap₂ (λ b p. read_turns turns b p consumed false visited (labels ++ l ∷ []))
        (sym (append_assoc pre (length l ∷ l) tail)) (sym size)
    ∙ read_turns-encode_labels ls rest turns pre' post consumed visited (labels ++ l ∷ []) e'
        (omega arith)
    ∙ ap₂ (λ ks n. parsed (join ks, n)) (append_assoc labels (l ∷ []) ls)
        (omega (arith, size, total))

-- Where fewer than 128 labels encode to a name, reading that name, ended by a zero byte and
-- between any other bytes, gives the labels joined by dots and the offset behind the name.
pub read_name-encode_labels :
    (ls : List (List ℕ)) (name pre post : List ℕ)
    → encode_labels ls ≡ some name
    → length ls < 128
    → read_name (pre ++ (name ++ 0 ∷ post)) (length pre)
      ≡ parsed (join ls, length pre + length name + 1)
unfolding read_name
read_name-encode_labels ls name pre post e few =
    let inside : leb (length (pre ++ (name ++ 0 ∷ post))) (length pre) ≡ false =
      ground (arith, length-append pre (name ++ 0 ∷ post), length-append name (0 ∷ post)) in
    rw inside (read_turns-encode_labels ls name 128 pre post (length pre) [] [] e few)
