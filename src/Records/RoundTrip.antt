-- ===== src/Records/RoundTrip.antt =====
-- A record and its script (`record_text` and `record_script` of sidestr-core/src/records.rs).
use sidestr_rs.Base.{
  ℕ, ◌+◌, ◌≤◌, ◌≡◌, inl, inr, true, ◌&&◌, not, some, [], ◌∷◌, ◌==◌, leb, if◌then◌else◌, length,
  drop, arith, Bool-cases, ok,
}
use sidestr_rs.Base.Bytes.{Bytes, utf8_from}
use sidestr_rs.Bitcoin.{Bitcoin}
use sidestr_rs.Records.Script.{record_text, record_script, push_text}

-- The script of a text: `OP_RETURN` and one minimal push, direct up to 75 bytes and by
-- `OP_PUSHDATA1` above.
abbrev pub minimal_script : Bytes → Bytes
minimal_script text =
    if leb (length text) 75 then 0x6a ∷ length text ∷ text else 0x6a ∷ 0x4c ∷ length text ∷ text

abbrev pub ValidUtf8 : Bytes → Type 0
ValidUtf8 text = utf8_from 0 0x80 0xbf text ≡ true

module _ (text : Bytes) (valid : ValidUtf8 text) (some_bytes : 1 ≤ length text) where
  record_text-direct : length text ≤ 75 → record_text (0x6a ∷ length text ∷ text) ≡ some text
  unfolding record_text
  record_text-direct h = ground arith

  record_text-pushdata :
      76 ≤ length text
      → length text ≤ 255
      → record_text (0x6a ∷ 0x4c ∷ length text ∷ text) ≡ some text
  unfolding record_text
  record_text-pushdata h k = ground arith

  record_text-minimal_script : length text ≤ 255 → record_text (minimal_script text) ≡ some text
  record_text-minimal_script h = elim (Bool-cases (leb (length text) 75)) [
    | inl short ↦ rw short (record_text-direct (ground arith))
    | inr long ↦ rw long (record_text-pushdata (ground arith) h)
  ]

-- A record that is written is read back: for a UTF-8 text of 1 to 255 bytes `record_script` gives a
-- script, and `record_text` gives the text of that script, where the script crate's
-- `new_op_return` writes the minimal push.
pub record_text-record_script :
    (btc : Bitcoin) (text : Bytes)
    → ValidUtf8 text
    → 1 ≤ length text
    → length text ≤ 255
    → btc.new_op_return text ≡ minimal_script text
    → (script : Bytes) × (record_script btc text ≡ ok script) × (record_text script ≡ some text)
unfolding record_script
record_text-record_script btc text valid lo hi law =
    (btc.new_op_return text, ground arith, rw law (record_text-minimal_script text valid lo hi))

push_text-some :
    (bytes : Bytes) (len start : ℕ) (t : Bytes)
    → push_text bytes (len, start) ≡ some t
    → (length bytes ≡ start + len) × (len ≤ 255) × (t ≡ drop start bytes) × ValidUtf8 t
push_text-some bytes len start t e = elim (Bool-cases (utf8_from 0 0x80 0xbf (drop start bytes))) [
  | inl valid ↦ ground arith
  | inr invalid ↦ ground arith
]

-- A direct push, and one behind `OP_PUSHDATA1`.
direct_lem :
    (n : ℕ) (rest t : Bytes)
    → 1 ≤ n
    → n ≤ 75
    → push_text (0x6a ∷ n ∷ rest) (n, 2) ≡ some t
    → ((0x6a ∷ n ∷ rest) ≡ minimal_script t) × (1 ≤ length t) × (length t ≤ 255) × ValidUtf8 t
direct_lem n rest t lo hi e =
    let (size, bound, whole, valid) = push_text-some (0x6a ∷ n ∷ rest) n 2 t e in
    let len : length rest ≡ n = omega arith in
    rw (whole, len) (ground arith, omega arith, omega arith, rw (← whole) valid)

pushdata_lem :
    (m : ℕ) (rest t : Bytes)
    → 76 ≤ m
    → push_text (0x6a ∷ 0x4c ∷ m ∷ rest) (m, 3) ≡ some t
    → ((0x6a ∷ 0x4c ∷ m ∷ rest) ≡ minimal_script t)
      × (1 ≤ length t)
      × (length t ≤ 255)
      × ValidUtf8 t
pushdata_lem m rest t lo e =
    let (size, bound, whole, valid) = push_text-some (0x6a ∷ 0x4c ∷ m ∷ rest) m 3 t e in
    let len : length rest ≡ m = omega arith in
    rw (whole, len) (ground arith, omega arith, omega arith, rw (← whole) valid)

-- Only the minimal script of a text is a record: whatever script `record_text` reads as a text is
-- that text's minimal script, and the text is UTF-8 of 1 to 255 bytes.
pub record_text-minimal :
    (script t : Bytes)
    → record_text script ≡ some t
    → (script ≡ minimal_script t) × (1 ≤ length t) × (length t ≤ 255) × ValidUtf8 t
unfolding record_text
record_text-minimal [] t e = cc
record_text-minimal (a ∷ []) t e = ground arith
record_text-minimal (a ∷ n ∷ []) t e = elim (Bool-cases ((a == 0x6a) && (leb 1 n && leb n 75))) [
  | inl direct ↦
      let ea : a ≡ 0x6a = ground arith in
      rw ea (direct_lem n [] t (ground arith) (ground arith) (ground arith))
  | inr other ↦ ground arith
]
record_text-minimal (a ∷ n ∷ m ∷ rest) t e =
    elim (Bool-cases ((a == 0x6a) && (leb 1 n && leb n 75))) [
      | inl direct ↦
          let ea : a ≡ 0x6a = ground arith in
          rw ea (direct_lem n (m ∷ rest) t (ground arith) (ground arith) (ground arith))
      | inr other ↦ elim (Bool-cases ((a == 0x6a) && ((n == 0x4c) && not (leb m 75)))) [
        | inl pushed ↦
            let ea : a ≡ 0x6a = ground arith in
            let en : n ≡ 0x4c = ground arith in
            rw (ea, en) (pushdata_lem m rest t (ground arith) (ground arith))
        | inr neither ↦ ground arith
      ]
    ]
