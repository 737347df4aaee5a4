-- ===== src/Redis/Server/BulkStrings.antt =====
-- The loop over arguments in src/redis_server.cpp, on bulk strings.
use raft_bitcask.Prelude.{
  ℕ, zero, suc, ◌+◌, ◌≤◌, ◌<◌, ◌≡◌, ◌^◌, refl, ap, ◌∙◌, true, false, some, List, [], ◌∷◌, ◌++◌,
  length, take, drop, ltb, ◌==◌, append_assoc, append-nil, drop_beyond, length-drop, length-append,
  take-append_self, drop-append_self, arith,
}
use raft_bitcask.Common.{Bytes}
use raft_bitcask.Db.FileName.{decimal}
use raft_bitcask.Db.FileName.Digits.{AreDigits, decimal-AreDigits}
use raft_bitcask.Redis.Service.{add_64}
use raft_bitcask.Redis.Server.Numbers.{plus, stoi-decimal}
use raft_bitcask.Redis.Server.Responses.{
  Responses, end, item, bulk_string, crlf, serialize, serialize_items,
}
use raft_bitcask.Redis.Server.Parser.{
  starts_with, find_crlf, number, read_number, plus_two, parse_args,
}

-- The arguments of a command as a client sends them.
abbrev pub bulk_strings : List Bytes → Responses
bulk_strings [] = end
bulk_strings (arg ∷ args) = item (bulk_string arg) (bulk_strings args)

-- The length of each argument and 2 are an `int`.
abbrev pub AllShort : List Bytes → Type 0
AllShort [] = Unit
AllShort (arg ∷ args) = (length arg + 2 < 2 ^ 31) × AllShort args

find_crlf-digits :
    (cs back : Bytes) → AreDigits cs → find_crlf (cs ++ (crlf ++ back)) ≡ some (length cs)
unfolding find_crlf starts_with
find_crlf-digits [] back d = refl
find_crlf-digits (c ∷ cs) back (low, high, d) =
    let other : (c == 13) ≡ false = ground arith in rw (other, find_crlf-digits cs back d) refl

drop-drop {ℓ} : {A : Type ℓ} (xs : List A) (i j : ℕ) → drop (i + j) xs ≡ drop j (drop i xs)
drop-drop xs zero j = ap (λ (k : ℕ). drop k xs) (omega arith)
drop-drop [] (suc i) zero = drop_beyond (suc i + 0) [] (omega arith)
drop-drop [] (suc i) (suc j) = drop_beyond (suc i + suc j) [] (omega arith)
drop-drop (x ∷ xs) (suc i) j =
    let next : suc i + j ≡ suc (i + j) = omega arith in rw next (drop-drop xs i j)

-- A bulk string in front of other bytes, part by part.
bulk_string-parts :
    (arg back : Bytes)
    → serialize (bulk_string arg) ++ back
      ≡ b'$' ∷ (decimal (length arg) ++ (crlf ++ (arg ++ (crlf ++ back))))
unfolding serialize
bulk_string-parts arg back =
    ap (λ t. b'$' ∷ t)
      (append_assoc (decimal (length arg)) (crlf ++ (arg ++ crlf)) back
        ∙ ap (λ t. decimal (length arg) ++ (crlf ++ t)) (append_assoc arg crlf back))

pub length-bulk_string :
    (arg : Bytes)
    → length (serialize (bulk_string arg)) ≡ 5 + (length (decimal (length arg)) + length arg)
unfolding serialize
length-bulk_string arg =
    omega
      (arith, length-append (decimal (length arg)) (crlf ++ (arg ++ crlf)), length-append arg crlf)

module _ (bytes : Bytes) where
  -- The bytes from an offset on, behind a part that is there.
  pub drop_behind :
      (offset : ℕ) (front back : Bytes)
      → drop offset bytes ≡ front ++ back
      → drop (offset + length front) bytes ≡ back
  drop_behind offset front back e =
      drop-drop bytes offset (length front)
      ∙ ap (drop (length front)) e
      ∙ drop-append_self front back

  -- A number in decimal digits, and the end of its line.
  pub read_number-decimal :
      (offset n : ℕ) (back : Bytes)
      → drop offset bytes ≡ decimal n ++ (crlf ++ back)
      → n < 2 ^ 31
      → read_number bytes offset ≡ number (plus n) (offset + length (decimal n) + 2)
  unfolding read_number
  read_number-decimal offset n back e small =
      let found : find_crlf (drop offset bytes) ≡ some (length (decimal n)) =
        ap find_crlf e ∙ find_crlf-digits (decimal n) back (decimal-AreDigits n) in
      let text : take (length (decimal n)) (drop offset bytes) ≡ decimal n =
        ap (take (length (decimal n))) e ∙ take-append_self (decimal n) (crlf ++ back) in
      rw (read_number, found, text, stoi-decimal n small) refl

  -- The bytes from an offset on, where some are there, end where all do.
  end_behind :
      (offset : ℕ) (back : Bytes)
      → drop offset bytes ≡ back
      → 0 < length back
      → offset + length back ≡ length bytes
  end_behind offset back e some_byte = omega (arith, length-drop offset bytes, ap length e)

  module _ (small : length bytes < 2 ^ 63) (offset : ℕ) (arg back : Bytes)
      (short : length arg + 2 < 2 ^ 31)
      (e : drop offset bytes ≡ serialize (bulk_string arg) ++ back) where
    abbrev start_of : ℕ
    start_of = offset + 1 + length (decimal (length arg)) + 2

    here : drop offset bytes ≡ b'$' ∷ (decimal (length arg) ++ (crlf ++ (arg ++ (crlf ++ back))))
    here = e ∙ bulk_string-parts arg back

    line : drop (offset + 1) bytes ≡ decimal (length arg) ++ (crlf ++ (arg ++ (crlf ++ back)))
    line = drop_behind offset (b'$' ∷ []) _ here

    content : drop start_of bytes ≡ arg ++ (crlf ++ back)
    content =
        drop_behind (offset + 1 + length (decimal (length arg))) crlf (arg ++ (crlf ++ back))
          (drop_behind (offset + 1) (decimal (length arg)) (crlf ++ (arg ++ (crlf ++ back))) line)

    next : drop (start_of + length arg + 2) bytes ≡ back
    next =
        drop_behind (start_of + length arg) crlf back
          (drop_behind start_of arg (crlf ++ back) content)

    -- A round of the loop takes a bulk string as the next argument.
    parse_args-next :
        (n : ℕ) (done : List Bytes)
        → parse_args (suc n) bytes offset done
          ≡ parse_args n bytes (start_of + length arg + 2) (done ++ arg ∷ [])
    unfolding parse_args starts_with plus_two
    parse_args-next n done =
        let behind =
          end_behind start_of (arg ++ (crlf ++ back)) content
            (omega (arith, length-append arg (crlf ++ back))) in
        let total = length-append arg (crlf ++ back) in
        let fits : start_of + length arg + 2 ≤ length bytes = omega (arith, behind, total) in
        let there : ltb (length bytes) (add_64 (add_64 start_of (length arg)) 2) ≡ false =
          ground arith in
        let sum_fits : ltb (length arg + 2) (2 ^ 31) ≡ true = ground arith in
        let moved : add_64 start_of (plus_two (plus (length arg))) ≡ start_of + length arg + 2 =
          rw (plus_two, sum_fits) (omega (arith, fits, small)) in
        let first : starts_with b'$' (drop offset bytes) ≡ true = ap (starts_with b'$') here in
        let text : take (length arg) (drop start_of bytes) ≡ arg =
          ap (take (length arg)) content ∙ take-append_self arg (crlf ++ back) in
        rw
          (
            parse_args,
            first,
            read_number-decimal (offset + 1) (length arg) (arg ++ (crlf ++ back)) line
                (omega (arith, short)),
            there,
            moved,
            text,
          )
          refl

  -- The loop takes the bulk strings that stand there as the next arguments.
  pub parse_args-bulk_strings :
      length bytes < 2 ^ 63
      → (args : List Bytes) (offset : ℕ) (done : List Bytes) (k : ℕ) (back : Bytes) → AllShort args
      → drop offset bytes ≡ serialize_items (bulk_strings args) ++ back
      → parse_args (length args + k) bytes offset done
        ≡ parse_args k bytes (offset + length (serialize_items (bulk_strings args))) (done ++ args)
  unfolding serialize_items
  parse_args-bulk_strings small [] offset done k back short e =
      let same : offset + 0 ≡ offset = omega arith in
      let rounds_left : 0 + k ≡ k = omega arith in rw (append-nil done, same, rounds_left) refl
  parse_args-bulk_strings small (arg ∷ args) offset done k back (fits, short) e =
      let items = serialize_items (bulk_strings args) in
      let there = e ∙ append_assoc (serialize (bulk_string arg)) items back in
      let rest =
        parse_args-bulk_strings small args
          (start_of small offset arg (items ++ back) fits there + length arg + 2) (done ++ arg ∷ [])
          k back short (next small offset arg (items ++ back) fits there) in
      let moved : start_of small offset arg (items ++ back) fits there
            + length arg
            + 2
            + length items
          ≡ offset + length (serialize (bulk_string arg) ++ items) =
        omega (arith, length-append (serialize (bulk_string arg)) items, length-bulk_string arg) in
      let one : suc (length args) + k ≡ suc (length args + k) = omega arith in
      rw one (
        parse_args-next small offset arg (items ++ back) fits there (length args + k) done
        ∙ rest
        ∙ rw (moved, append_assoc done (arg ∷ []) args) refl)
