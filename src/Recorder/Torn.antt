-- ===== src/Recorder/Torn.antt =====
-- A recording that ends inside a frame, as a crash leaves it.
use hootty.Base.{
  ℕ, zero, suc, ◌<◌, List, [], ◌∷◌, ◌++◌, ◌≡◌, refl, arith, length, take, Bytes, All, length-take,
}
use hootty.Io.{closes, short, short_read, read_full}
use hootty.Io.Words.{u16-put_u16, read_full-append}
use hootty.Recorder.{header, recorder_preamble, u64_mod}
use hootty.Recorder.Frames.{RawFrame, encode, encodes, clock, IsFrame}
use hootty.Recorder.Decoder.{ok, err, end_of_file, read_error, read_raw, next_frame, decode}
use hootty.Recorder.Decode.{frames, IsTail, decode-frames}

read_full-short :
    (n : ℕ) (bs : Bytes)
    → length bs < n
    → read_full n (record { bytes = bs; ending = closes }) ≡ short (short_read closes bs)
unfolding read_full
read_full-short n bs h = ground arith

short_read-ends : (bs : Bytes) → read_error (short_read closes bs) ≡ end_of_file
short_read-ends [] = refl
short_read-ends (b ∷ bs) = refl

read_raw-payload_cut :
    (f : RawFrame) (k : ℕ)
    → IsFrame f
    → k < length f.payload
    → read_raw (record {
      bytes = header f.type f.delta (length f.payload) ++ take k f.payload;
      ending = closes;
    })
      ≡ err end_of_file
unfolding read_raw
read_raw-payload_cut f k v h = ground (
  arith,
  read_full-append (header f.type f.delta (length f.payload)) (take k f.payload) closes 5 refl,
  u16-put_u16 (length f.payload) [] v.length_fits,
  read_full-short (length f.payload) (take k f.payload) (omega (arith, length-take k f.payload)),
  short_read-ends (take k f.payload),
)

read_raw-cut :
    (f : RawFrame) (n : ℕ)
    → IsFrame f
    → n < length (encode f)
    → read_raw (record { bytes = take n (encode f); ending = closes }) ≡ err end_of_file
unfolding read_raw read_full
read_raw-cut f zero v h = refl
read_raw-cut f (suc zero) v h = refl
read_raw-cut f (suc (suc zero)) v h = refl
read_raw-cut f (suc (suc (suc zero))) v h = refl
read_raw-cut f (suc (suc (suc (suc zero)))) v h = refl
read_raw-cut f (suc (suc (suc (suc (suc k))))) v h = read_raw-payload_cut f k v (omega arith)

IsTail-cut : (f : RawFrame) (n : ℕ) → IsFrame f → n < length (encode f) → IsTail (take n (encode f))
unfolding next_frame
IsTail-cut f n v h fuel cum = rw (read_raw-cut f n v h) refl

-- A recording of whole frames that ends anywhere inside one more frame, and whose clock fits 64
-- bits, decodes without an error to what its whole frames show.
pub decode-torn :
    (fs : List RawFrame) (f : RawFrame) (n : ℕ)
    → All IsFrame fs
    → IsFrame f
    → clock fs < u64_mod
    → n < length (encode f)
    → decode
        (record { bytes = recorder_preamble ++ (encodes fs ++ take n (encode f)); ending = closes })
      ≡ ok (frames 0 fs)
decode-torn fs f n v vf fits h = decode-frames (take n (encode f)) (IsTail-cut f n vf h) fs v fits
