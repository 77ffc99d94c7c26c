-- ===== src/Sanitize/Jpeg.antt =====
-- `stripJpegMetadata` of apps/worker/src/sanitize/image-metadata.ts. The loop is written over what
-- follows `offset`; each round reads at least two bytes, so the length is enough fuel.
pub mod Totality
use legaltech_colombia.Prelude.{
  ℕ, zero, suc, ◌+◌, ◌*◌, ◌≡◌, refl, Bool, true, false, ◌&&◌, ◌||◌, not, Option, none, some, List,
  [], ◌∷◌, ◌++◌, ltb, leb, ◌==◌, if◌then◌else◌, length, take, drop,
}
use legaltech_colombia.Sanitize.Bytes.{Bytes, Stripped, stripped, refused, exhausted, byte_at}

-- `JPEG_REMOVED_MARKERS`: APP1, APP13 and COM
abbrev pub is_removed_marker : ℕ → Bool
is_removed_marker m = m == 0xe1 || (m == 0xed || m == 0xfe)

-- RST0 to RST7
abbrev pub is_restart : ℕ → Bool
is_restart m = leb 0xd0 m && leb m 0xd7

-- `JPEG_STANDALONE`: TEM and RST0 to RST7
abbrev pub is_standalone : ℕ → Bool
is_standalone m = m == 0x01 || is_restart m

-- Fill bytes before a marker are passed over.
pub skip_fill : Bytes → Bytes
skip_fill [] = []
skip_fill (x ∷ []) = x ∷ []
skip_fill (x ∷ y ∷ r) = if y == 0xff then skip_fill (y ∷ r) else x ∷ y ∷ r

-- `readUInt16BE(markerOffset + 2)`
abbrev pub segment_length : Bytes → ℕ
segment_length r = byte_at r 2 * 256 + byte_at r 3

abbrev longer : ℕ → Option ℕ → Option ℕ
longer k none = none
longer k (some n) = some (k + n)

-- How many bytes of entropy-coded data precede the next marker; none if no marker follows.
pub scan_length : Bytes → Option ℕ
scan_length [] = none
scan_length (x ∷ []) = none
scan_length (x ∷ y ∷ r) =
    let stuffed = longer 2 (scan_length r) in
    let plain = longer 1 (scan_length (y ∷ r)) in
    if x == 0xff then (if not (y == 0x00) && not (is_restart y) then some 0 else stuffed) else plain

-- One marker segment, or the reason to stop. `r` begins with the marker.
pub data Step : Type 0 where
  stop : Stripped → Step
  onward : (rest kept : Bytes) (scans : ℕ) → Step

-- The scan's data behind an SOS segment.
abbrev pub after_scan : Bytes → Bytes → ℕ → Option ℕ → Step
after_scan r kept scans none = stop refused
after_scan r kept scans (some n) = onward (drop n r) (kept ++ take n r) (suc scans)

abbrev pub kept_segment : Bytes → Bytes
kept_segment r = if is_removed_marker (byte_at r 1) then [] else take (2 + segment_length r) r

pub read_segment : Bytes → Bytes → ℕ → Step
read_segment r kept scans =
    if ltb (length r) 4
    then stop refused
    else if ltb (segment_length r) 2 || ltb (length r) (2 + segment_length r)
    then stop refused
    else if byte_at r 1 == 0xda
    then after_scan (drop (2 + segment_length r) r) (kept ++ kept_segment r) scans
        (scan_length (drop (2 + segment_length r) r))
    else onward (drop (2 + segment_length r) r) (kept ++ kept_segment r) scans

pub read_marker : Bytes → Bytes → ℕ → Step
read_marker r kept scans =
    if ltb (length r) 2
    then stop refused
    else if byte_at r 1 == 0xd9
    then stop (if scans == 0 then refused else stripped (kept ++ take 2 r))
    else if is_standalone (byte_at r 1)
    then onward (drop 2 r) (kept ++ take 2 r) scans
    else read_segment r kept scans

-- One round of the loop.
pub read_step : Bytes → Bytes → ℕ → Step
read_step [] kept scans = stop refused
read_step (x ∷ r) kept scans =
    if not (x == 0xff) then stop refused else read_marker (skip_fill (x ∷ r)) kept scans

pub strip_segments : ℕ → Bytes → Bytes → ℕ → Stripped
strip_segments zero rest kept scans = exhausted
strip_segments (suc f) rest kept scans = elim (read_step rest kept scans) [
  | stop result ↦ result
  | onward rest' kept' scans' ↦ strip_segments f rest' kept' scans'
]

unfoldable pub strip_jpeg_metadata : Bytes → Stripped
strip_jpeg_metadata input =
    if ltb (length input) 4 || (not (byte_at input 0 == 0xff) || not (byte_at input 1 == 0xd8))
    then refused
    else strip_segments (suc (length input)) (drop 2 input) (take 2 input) 0

-- SOI, an APP1 segment, SOS with one stuffed byte, EOI and appended data.
sample : Bytes
sample =
    0xff ∷ 0xd8 ∷ 0xff ∷ 0xff ∷ 0xe1 ∷ 0 ∷ 3 ∷ 7 ∷ 0xff ∷ 0xda ∷ 0 ∷ 2 ∷ 5 ∷ 0xff ∷ 0x00 ∷ 0xff
    ∷ 0xd9 ∷ 9 ∷ []

strips_sample :
    strip_jpeg_metadata sample
    ≡ stripped (0xff ∷ 0xd8 ∷ 0xff ∷ 0xda ∷ 0 ∷ 2 ∷ 5 ∷ 0xff ∷ 0x00 ∷ 0xff ∷ 0xd9 ∷ [])
unfolding strip_jpeg_metadata strip_segments read_step read_marker read_segment skip_fill
    scan_length sample
strips_sample = refl
