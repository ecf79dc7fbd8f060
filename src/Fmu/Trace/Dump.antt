-- ===== src/Fmu/Trace/Dump.antt =====
-- The text of a payload that trace_can_log and trace_pdu_log (dse/fmu/ncodec.c) build in a buffer of
-- NCT_BUFFER_LEN characters, by snprintf at its end. `i` is the index of the byte in the payload.
use dse_fmi.Common.{
  ℕ, zero, suc, ◌+◌, ◌-◌, ◌/◌, ◌%◌, ◌≤◌, ◌<◌, ◌≡◌, refl, sym, ◌∙◌, ap, Bool, true, false,
  Bool-cases, inl, inr, [], ◌∷◌, ◌++◌, length, take, length-take, append_assoc, append-nil, Bytes,
  ltb, leb, ◌==◌, if◌then◌else◌, arith, ◌^◌, Option, none, some, get_elem?, drop, length-drop,
  Returns, ◌>>=◌,
}

abbrev pub nct_buffer_len : ℕ
nct_buffer_len = 2000

-- snprintf(b + strlen(b), sizeof(b) - strlen(b), ...)
unfoldable pub put_text : Bytes → Bytes → Bytes
put_text b text = b ++ take (nct_buffer_len - length b - 1) text

abbrev pub hex_digit : ℕ → ℕ
hex_digit n = if ltb n 10 then 48 + n else 87 + n

-- " %02x" of a byte.
abbrev pub hex_text : ℕ → Bytes
hex_text byte = 32 ∷ hex_digit (byte / 16) ∷ hex_digit (byte % 16) ∷ []

-- What the short form puts before byte i.
abbrev pub short_separator : ℕ → Bytes
short_separator i = if i == 0 then [] else (if i % 8 == 0 then 32 ∷ [] else [])

-- The separators before byte i of the short form.
abbrev pub short_separated : Bytes → ℕ → Bytes
short_separated b i = if i == 0 then b else (if i % 8 == 0 then put_text b (32 ∷ []) else b)

-- The two tests before byte i of the long form.
abbrev pub long_separated : Bytes → ℕ → Bytes
long_separated b i =
    let line = if i % 32 == 0 then put_text b (10 ∷ 32 ∷ []) else b in
    if i % 8 == 0 then put_text line (32 ∷ []) else line

-- A loop over the bytes, with i in a uint32_t and the length in a size_t; `before` writes what
-- stands before a byte, and `full` is the test that ends the loop early. `none` is fuel that is used
-- up before the loop ends.
unfoldable pub byte_loop :
    (Bytes → Bool) → (Bytes → ℕ → Bytes) → Bytes → ℕ → Bytes → ℕ → Option Bytes
unfolding put_text
byte_loop full before payload zero b i = none
byte_loop full before payload (suc fuel) b i =
    let rest = (do
      byte ← get_elem? payload i
      byte_loop full before payload fuel (put_text (before b i) (hex_text byte))
          ((i + 1) % 2 ^ 32)) in
    if leb (length payload) i then some b else (if full b then some b else rest)

-- A loop that ends takes a turn for each byte, and one for the test behind the last.
unfoldable pub short_form : Bytes → Option Bytes
unfolding byte_loop
short_form payload = byte_loop (λ b. false) short_separated payload (length payload + 1) [] 0

-- strlen(b) > NCT_BUFFER_LEN
abbrev pub is_full : Bytes → Bool
is_full b = ltb nct_buffer_len (length b)

unfoldable pub long_form : Bytes → Option Bytes
unfolding byte_loop
long_form payload = byte_loop is_full long_separated payload (length payload + 1) [] 0

unfoldable pub dump : Bytes → Option Bytes
unfolding short_form long_form
dump payload = if leb (length payload) 16 then short_form payload else long_form payload

-- The separators and the bytes, without a buffer.
abbrev pub written : (ℕ → Bytes) → ℕ → Bytes → Bytes
written separator i [] = []
written separator i (byte ∷ rest) = (separator i ++ hex_text byte) ++ written separator (suc i) rest

-- What the long form puts before byte i: a new line at every 32, a space at every 8.
abbrev pub long_separator : ℕ → Bytes
long_separator i =
    (if i % 32 == 0 then 10 ∷ 32 ∷ [] else []) ++ (if i % 8 == 0 then 32 ∷ [] else [])

abbrev pub whole_dump : Bytes → Bytes
whole_dump payload =
    if leb (length payload) 16
    then written short_separator 0 payload
    else written long_separator 0 payload

abbrev cut : Bytes → Bytes
cut = take 1999

take-take_append :
    (m n : ℕ) (xs ys : Bytes)
    → n ≡ m - length (take m xs)
    → take m xs ++ take n ys ≡ take m (xs ++ ys)
take-take_append zero n xs ys h = rw h refl
take-take_append (suc m) n [] ys h = let e : n ≡ suc m = omega (arith, h) in ap (λ k. take k ys) e
take-take_append (suc m) n (x ∷ xs) ys h =
    ap (λ (l : Bytes). x ∷ l) (take-take_append m n xs ys (omega (arith, h)))

put_text-cut : (xs ys : Bytes) → put_text (cut xs) ys ≡ cut (xs ++ ys)
unfolding put_text
put_text-cut xs ys = take-take_append 1999 (2000 - length (cut xs) - 1) xs ys (omega arith)

put_if :
    (b : Bool) (xs ys : Bytes)
    → (if b then put_text (cut xs) ys else cut xs) ≡ cut (xs ++ (if b then ys else []))
put_if true xs ys = put_text-cut xs ys
put_if false xs ys = ap cut (sym (append-nil xs))

long_separated-cut : (xs : Bytes) (i : ℕ) → long_separated (cut xs) i ≡ cut (xs ++ long_separator i)
long_separated-cut xs i =
    let line : Bytes = if i % 32 == 0 then 10 ∷ 32 ∷ [] else [] in
    let space : Bytes = if i % 8 == 0 then 32 ∷ [] else [] in
    ap (λ (l : Bytes). if i % 8 == 0 then put_text l (32 ∷ []) else l)
      (put_if (i % 32 == 0) xs (10 ∷ 32 ∷ []))
    ∙ put_if (i % 8 == 0) (xs ++ line) (32 ∷ [])
    ∙ ap cut (append_assoc xs line space)

short_separated-cut :
    (xs : Bytes) (i : ℕ) → short_separated (cut xs) i ≡ cut (xs ++ short_separator i)
short_separated-cut xs i = elim (Bool-cases (i == 0)) [
  | inl e ↦ rw e (ap cut (sym (append-nil xs)))
  | inr e ↦ rw e (put_if (i % 8 == 0) xs (32 ∷ []))
]

-- The text so far, one byte with its separator, and the rest.
regroup : (xs sep hex rest : Bytes) → ((xs ++ sep) ++ hex) ++ rest ≡ xs ++ ((sep ++ hex) ++ rest)
regroup xs sep hex rest =
    ap (λ (l : Bytes). l ++ rest) (append_assoc xs sep hex) ∙ append_assoc xs (sep ++ hex) rest

never_above : (xs : Bytes) → ltb nct_buffer_len (length (cut xs)) ≡ false
never_above xs = below (length (cut xs)) (omega (arith, length-take 1999 xs))
  where
    below : (n : ℕ) → n ≤ 1999 → ltb nct_buffer_len n ≡ false
    below n h = ground arith

-- The byte at a position, and what lies behind it.
drop-split :
    (i : ℕ) (xs : Bytes) (x : ℕ) (r : Bytes)
    → drop i xs ≡ x ∷ r
    → (get_elem? xs i ≡ some x) × (drop (suc i) xs ≡ r)
drop-split zero [] x r h = absurd (cc h)
drop-split zero (y ∷ ys) x r h = (cc h, cc h)
drop-split (suc i) [] x r h = absurd (cc h)
drop-split (suc i) (y ∷ ys) x r h = drop-split i ys x r h

at_end : (n i : ℕ) → n - i ≡ 0 → leb n i ≡ true
at_end n i h = ground arith

inside : (n i k : ℕ) → n - i ≡ suc k → n < 2 ^ 32 → (leb n i ≡ false) × ((i + 1) % 2 ^ 32 ≡ suc i)
inside n i k h l = (ground arith, omega arith)

module _ (full : Bytes → Bool) (before : Bytes → ℕ → Bytes) (separator : ℕ → Bytes)
    (open_still : (xs : Bytes) → full (cut xs) ≡ false)
    (separated : (xs : Bytes) (i : ℕ) → before (cut xs) i ≡ cut (xs ++ separator i)) where
  byte_loop-cut :
      (rest payload xs : Bytes) (fuel i : ℕ)
      → drop i payload ≡ rest
      → length payload < 2 ^ 32
      → length rest < fuel
      → byte_loop full before payload fuel (cut xs) i ≡ some (cut (xs ++ written separator i rest))
  unfolding byte_loop
  byte_loop-cut rest payload xs zero i d l f = absurd (omega (arith, f))
  byte_loop-cut [] payload xs (suc fuel) i d l f =
      rw (at_end (length payload) i (sym (length-drop i payload) ∙ ap length d))
        (ap (λ (b : Bytes). some (cut b)) (sym (append-nil xs)))
  byte_loop-cut (byte ∷ rest) payload xs (suc fuel) i d l f =
      let (more, next) =
        inside (length payload) i (length rest) (sym (length-drop i payload) ∙ ap length d) l in
      let (here, behind) = drop-split i payload byte rest d in
      rw (more, open_still xs, here, next)
        (ap (λ (b : Bytes). byte_loop full before payload fuel (put_text b (hex_text byte)) (suc i))
            (separated xs i)
          ∙ ap (λ (b : Bytes). byte_loop full before payload fuel b (suc i))
              (put_text-cut (xs ++ separator i) (hex_text byte))
          ∙ byte_loop-cut rest payload ((xs ++ separator i) ++ hex_text byte) fuel (suc i) behind l
              (omega (arith, f))
          ∙ ap (λ (b : Bytes). some (cut b))
              (regroup xs (separator i) (hex_text byte) (written separator (suc i) rest)))

-- For a payload of fewer than 2^32 bytes the loops end; the text fits into the buffer with its
-- terminator, and is the whole text of the payload, in the short form for up to 16 bytes and in the
-- long form otherwise, cut off at 1999 characters.
pub dump_bounds :
    (payload : Bytes)
    → length payload < 2 ^ 32
    → Returns
        (dump payload)
        (λ text. (length text < nct_buffer_len) × (text ≡ take 1999 (whole_dump payload)))
unfolding dump short_form long_form
dump_bounds payload l =
    rw (by_form (leb (length payload) 16))
      (omega (arith, length-take 1999 (whole_dump payload)), refl)
  where
    by_form :
        (b : Bool)
        → (if b then short_form payload else long_form payload)
          ≡ some (
              cut
                (if b then written short_separator 0 payload else written long_separator 0 payload))
    by_form true =
        byte_loop-cut (λ b. false) short_separated short_separator (λ xs. refl) short_separated-cut
          payload payload [] (length payload + 1) 0 refl l (omega arith)
    by_form false =
        byte_loop-cut is_full long_separated long_separator never_above long_separated-cut payload
          payload [] (length payload + 1) 0 refl l (omega arith)
