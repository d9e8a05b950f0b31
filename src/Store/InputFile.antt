-- ===== src/Store/InputFile.antt =====
-- What the readers use of `std::ifstream`: a file's bytes, the read position and `good()`.
use piggy_engine.Prelude.{ℕ, ◌+◌, ◌-◌, List, ◌++◌, Bool, true, ◌≡◌, arith, ap, append-nil}
use piggy_engine.Prelude.Words.{u32, u32_bytes, read_u32, read_u32_bytes}
use piggy_engine.Prelude.{
  ◌<◌, [], length, take, drop, replicate, if◌then◌else◌, ◌==◌, ◌≤◌, length-take,
}

pub record InputFile : Type 0 where
  pub bytes : List ℕ
  pub pos : ℕ
  pub good : Bool

-- The state after `open` of a file that is there.
abbrev pub opened : List ℕ → InputFile
opened bytes = record { bytes = bytes; pos = 0; good = true }

-- `seekg` does nothing on a stream that has failed.
unfoldable pub seek : ℕ → InputFile → InputFile
seek pos f = record f { pos = if f.good then pos else f.pos }

unfoldable pub clear : InputFile → InputFile
clear f = record f { good = true }

-- What a zeroed buffer of `count` bytes holds after `read`. At the end of the file the buffer gets
-- what there is, and the stream fails.
unfoldable pub read : ℕ → InputFile → List ℕ × InputFile
read count f =
    let got = take count (drop f.pos f.bytes) in
    if f.good
    then (
      got ++ replicate (count - length got) 0,
      record f { pos = f.pos + length got; good = length got == count },
    )
    else (replicate count 0, f)

-- What `read` leaves in a buffer that held `old`.
unfoldable pub read_over : List ℕ → InputFile → List ℕ × InputFile
read_over old f =
    let got = take (length old) (drop f.pos f.bytes) in
    if f.good
    then (
      got ++ drop (length got) old,
      record f { pos = f.pos + length got; good = length got == length old },
    )
    else (old, f)

-- The same for a 32-bit variable.
unfoldable pub read_u32_over : ℕ → InputFile → ℕ × InputFile
unfolding read_over
read_u32_over old f = let r = read_over (u32_bytes old) f in (read_u32 r.0, r.1)

-- The next four bytes, where they are `x`.
pub read_u32_over-u32_bytes :
    (old x : ℕ) (rest : List ℕ) (f : InputFile)
    → x < u32
    → f.good ≡ true
    → drop f.pos f.bytes ≡ u32_bytes x ++ rest
    → read_u32_over old f ≡ (x, record { bytes = f.bytes; pos = f.pos + 4; good = true })
unfolding read_u32_over read_over
read_u32_over-u32_bytes old x rest f small ok at =
    let got : take 4 (drop f.pos f.bytes) ≡ u32_bytes x = ap (take 4) at in
    rw (ok, got)
      (ap (λ (n : ℕ). (n, record { bytes = f.bytes; pos = f.pos + 4; good = true }))
        (read_u32_bytes x [] small))

-- A read that the file has the bytes for.
pub read_full :
    (count : ℕ) (f : InputFile)
    → f.good ≡ true
    → count ≤ length (drop f.pos f.bytes)
    → read count f ≡ (
      take count (drop f.pos f.bytes),
      record { bytes = f.bytes; pos = f.pos + count; good = true },
    )
unfolding read
read_full count f ok enough =
    let got : length (take count (drop f.pos f.bytes)) ≡ count =
      omega (arith, length-take count (drop f.pos f.bytes)) in
    let same : (count == count) ≡ true = ground arith in
    let none_left : count - count ≡ 0 = omega arith in
    rw (ok, got, same, none_left)
      (ap (λ (t : List ℕ). (t, record { bytes = f.bytes; pos = f.pos + count; good = true }))
        (append-nil (take count (drop f.pos f.bytes))))
