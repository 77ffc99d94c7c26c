-- ===== src/Sanitize/Jpeg/Totality.antt =====
-- The loop over the segments of a JPEG always ends.
use legaltech_colombia.Prelude.{
  refl, none, zero, ◌≡◌, some, suc, ◌++◌, Option, ℕ, ◌+◌, ◌≤◌, ◌<◌, ◌≢◌, [], ◌∷◌, arith, length,
  drop, take, length-drop,
}
use legaltech_colombia.Sanitize.Bytes.{Bytes, exhausted}
use legaltech_colombia.Sanitize.Jpeg.{
  scan_length, after_scan, kept_segment, read_marker, strip_jpeg_metadata, strip_segments,
  read_step, skip_fill, Step, stop, onward, segment_length, read_segment,
}

length-skip_fill : (r : Bytes) → length (skip_fill r) ≤ length r
unfolding skip_fill
length-skip_fill [] = omega arith
length-skip_fill (x ∷ []) = omega arith
length-skip_fill (x ∷ y ∷ r) = ground (arith, length-skip_fill (y ∷ r))

-- A round that goes on has read something, and none ends for want of fuel.
abbrev Smaller : ℕ → Step → Type 0
Smaller n (stop result) = result ≢ exhausted
Smaller n (onward rest kept scans) = length rest < n

after_scan-Smaller :
    (n : ℕ) (r kept : Bytes) (scans : ℕ) (o : Option ℕ)
    → length r < n
    → Smaller n (after_scan r kept scans o)
after_scan-Smaller n r kept scans none h = λ e. cc
after_scan-Smaller n r kept scans (some k) h = omega (arith, length-drop k r)

read_segment-Smaller :
    (n : ℕ) (r kept : Bytes) (scans : ℕ) → length r ≤ n → Smaller n (read_segment r kept scans)
unfolding read_segment
read_segment-Smaller n r kept scans h = ground (
  arith,
  length-drop (2 + segment_length r) r,
  after_scan-Smaller n (drop (2 + segment_length r) r) (kept ++ kept_segment r) scans
      (scan_length (drop (2 + segment_length r) r)),
)

read_marker-Smaller :
    (n : ℕ) (r kept : Bytes) (scans : ℕ) → length r ≤ n → Smaller n (read_marker r kept scans)
unfolding read_marker
read_marker-Smaller n r kept scans h =
    ground (arith, length-drop 2 r, read_segment-Smaller n r kept scans h)

read_step-Smaller : (r kept : Bytes) (scans : ℕ) → Smaller (length r) (read_step r kept scans)
unfolding read_step
read_step-Smaller [] kept scans = λ e. cc
read_step-Smaller (x ∷ r) kept scans = ground (
  arith,
  length-skip_fill (x ∷ r),
  read_marker-Smaller (length (x ∷ r)) (skip_fill (x ∷ r)) kept scans,
)

strip_segments-ne-exhausted :
    (f : ℕ) (rest kept : Bytes) (scans : ℕ)
    → length rest < f
    → strip_segments f rest kept scans ≢ exhausted
unfolding strip_segments
strip_segments-ne-exhausted zero rest kept scans h = absurd (omega arith)
strip_segments-ne-exhausted (suc f) rest kept scans h =
    by_step (read_step rest kept scans) refl (read_step-Smaller rest kept scans)
      (strip_segments-ne-exhausted f)
  where
    by_step :
        (s : Step)
        → read_step rest kept scans ≡ s
        → Smaller (length rest) (read_step rest kept scans)
        → ((r k : Bytes) (n : ℕ) → length r < f → strip_segments f r k n ≢ exhausted)
        → strip_segments (suc f) rest kept scans ≢ exhausted
    by_step (stop result) e small ih = rw (e, strip_segments) (rw e at small)
    by_step (onward r k n) e small ih =
        rw (e, strip_segments) (ih r k n (omega (arith, rw e at small)))

-- The sanitizer of JPEG files always ends: the model's fuel is enough for every input.
pub strip_jpeg_metadata-total : (input : Bytes) → strip_jpeg_metadata input ≢ exhausted
unfolding strip_jpeg_metadata
strip_jpeg_metadata-total input = ground (
  arith,
  length-drop 2 input,
  strip_segments-ne-exhausted (suc (length input)) (drop 2 input) (take 2 input) 0,
)
