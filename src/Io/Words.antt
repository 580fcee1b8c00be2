-- ===== src/Io/Words.antt =====
-- Little-endian integers read back, and reads that find enough bytes.
use hootty.Base.{
  ℕ, ◌<◌, ◌≡◌, arith, ◌++◌, length, Bytes, All, IsByte, length-append, take-length-append,
  drop-length-append,
}
use hootty.Io.{Ending, full, read_full, put_u16, put_u32, u16, u32}

pub u16-put_u16 : (n : ℕ) (rest : Bytes) → n < 65536 → u16 (put_u16 n ++ rest) ≡ n
unfolding u16
u16-put_u16 n rest h = omega arith

pub u32-put_u32 : (n : ℕ) (rest : Bytes) → n < 4294967296 → u32 (put_u32 n ++ rest) ≡ n
unfolding u32
u32-put_u32 n rest h = omega arith

pub put_u16-IsByte : (n : ℕ) → All IsByte (put_u16 n)
put_u16-IsByte n = omega arith

pub put_u32-IsByte : (n : ℕ) → All IsByte (put_u32 n)
put_u32-IsByte n = omega arith

-- A read of as many bytes as a front part has takes exactly that part.
pub read_full-append :
    (front rest : Bytes) (ending : Ending) (n : ℕ)
    → n ≡ length front
    → read_full n (record { bytes = front ++ rest; ending = ending })
      ≡ full front (record { bytes = rest; ending = ending })
unfolding read_full
read_full-append front rest ending n e =
    ground (
      arith,
      length-append front rest,
      take-length-append front rest,
      drop-length-append front rest,
    )
