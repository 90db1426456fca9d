-- ===== src/Metrics/Scrape.antt =====
-- What a scraper reads off the text of the metrics (the text format of Prometheus): each line that is
-- no comment is a series and, after the last space, its value. The text of src/metrics.rs is read
-- back.
use mathlib.Core.List.{append_assoc}
use g_kms.Prelude.{
  ℕ, ◌≡◌, refl, ap, ◌∙◌, Bool, true, false, not, ◌&&◌, ◌==◌, if◌then◌else◌, List, [], ◌∷◌, ◌++◌,
  map, filter, All, Option, none, some, unwrap_or, Bytes, codes, starts_with, is_empty, arith,
}
use g_kms.Metrics.Exposition.{Family, series, sample_line, family_lines, unlines, exposition}

abbrev prepend : ℕ → List Bytes → List Bytes
prepend c [] = (c ∷ []) ∷ []
prepend c (line ∷ lines) = (c ∷ line) ∷ lines

-- The lines of a text; what follows the last line feed is one, unless it is empty.
pub split_lines : Bytes → List Bytes
split_lines [] = []
split_lines (c ∷ s) = let rest = split_lines s in if c == 10 then [] ∷ rest else prepend c rest

-- The parts before and after the last space.
pub split_last : Bytes → Option (Bytes × Bytes)
split_last [] = none
split_last (c ∷ s) = elim (split_last s) [
  | some (key, value) ↦ some (c ∷ key, value)
  | none ↦ if c == 32 then some ([], s) else none
]

pub scrape : Bytes → List (Bytes × Bytes)
scrape s =
    map (λ line. unwrap_or (line, []) (split_last line))
      (filter (λ line. not (starts_with (codes "#") line)) (split_lines s))

-- No byte is this one.
abbrev pub free : ℕ → Bytes → Bool
free c [] = true
free c (d ∷ s) = not (d == c) && free c s

-- A value is on one line and has no space.
abbrev pub IsPlain : Bytes → Type 0
IsPlain value = (free 10 value ≡ true) × (free 32 value ≡ true)

-- The line is one line and no comment, and its series and value are these.
abbrev Reads : Bytes → Bytes × Bytes → Type 0
Reads line sample =
    (free 10 line ≡ true) × (starts_with (codes "#") line ≡ false) × (split_last line ≡ some sample)

-- What the text of a metric shows.
abbrev pub shown : Family → List (Bytes × Bytes)
shown f = map (series f.name) f.samples

abbrev pub all_shown : List Family → List (Bytes × Bytes)
all_shown [] = []
all_shown (f ∷ families) = shown f ++ all_shown families

-- The name starts a series, and what is written of the metric fits on its lines.
abbrev pub is_header : Family → Bool
is_header f =
    not (is_empty f.name)
    && not (starts_with (codes "#") f.name)
    && free 10 f.name
    && free 10 f.help
    && free 10 f.kind

abbrev pub IsReadable : Family → Type 0
IsReadable f = (is_header f ≡ true) × All (λ s. (free 10 s.0 ≡ true) × IsPlain s.1) f.samples

pub free-append : (c : ℕ) (s t : Bytes) → free c s ≡ true → free c t ≡ true → free c (s ++ t) ≡ true
free-append c [] t hs ht = ht
free-append c (d ∷ s) t hs ht = ground (arith, free-append c s t)

split_lines-line :
    (line rest : Bytes)
    → free 10 line ≡ true
    → split_lines (line ++ 10 ∷ rest) ≡ line ∷ split_lines rest
unfolding split_lines
split_lines-line [] rest h = refl
split_lines-line (c ∷ line) rest h = ground (arith, split_lines-line line rest)

split_last-none : (s : Bytes) → free 32 s ≡ true → split_last s ≡ none
unfolding split_last
split_last-none [] h = refl
split_last-none (c ∷ s) h = ground (arith, split_last-none s)

split_last-sample :
    (key value : Bytes) → free 32 value ≡ true → split_last (key ++ 32 ∷ value) ≡ some (key, value)
unfolding split_last
split_last-sample [] value h = rw (split_last-none value h) refl
split_last-sample (c ∷ key) value h = rw (split_last-sample key value h) refl

-- The lines of a scrape, each of one line.
abbrev pick : List Bytes → List (Bytes × Bytes)
pick lines =
    map (λ line. unwrap_or (line, []) (split_last line))
      (filter (λ line. not (starts_with (codes "#") line)) lines)

comment-pick :
    (line : Bytes) (lines : List Bytes)
    → starts_with (codes "#") line ≡ true
    → pick (line ∷ lines) ≡ pick lines
comment-pick line lines h = rw h refl

sample-pick :
    (name : Bytes) (sample : Bytes × Bytes) (lines : List Bytes)
    → starts_with (codes "#") (sample_line (series name sample)) ≡ false
    → free 32 sample.1 ≡ true
    → pick (sample_line (series name sample) ∷ lines) ≡ series name sample ∷ pick lines
sample-pick name (labels, value) lines h plain =
    rw (h, split_last-sample (name ++ labels) value plain) refl

-- A name that starts no comment keeps its line from being one.
no_comment :
    (name rest : Bytes)
    → is_empty name ≡ false
    → starts_with (codes "#") name ≡ false
    → starts_with (codes "#") (name ++ rest) ≡ false
no_comment [] rest e h = ground arith
no_comment (c ∷ name) rest e h = ground arith

split_lines-unlines :
    (lines : List Bytes) (rest : Bytes)
    → All (λ line. free 10 line ≡ true) lines
    → split_lines (unlines lines ++ rest) ≡ lines ++ split_lines rest
unfolding unlines
split_lines-unlines [] rest all = refl
split_lines-unlines (line ∷ lines) rest (single, all) =
    ap split_lines (append_assoc line (10 ∷ unlines lines) rest)
    ∙ split_lines-line line (unlines lines ++ rest) single
    ∙ ap (◌∷◌ line) (split_lines-unlines lines rest all)

module _ (name : Bytes) (single : free 10 name ≡ true) where
  lines-Single :
      (samples : List (Bytes × Bytes))
      → All (λ s. (free 10 s.0 ≡ true) × IsPlain s.1) samples
      → All (λ line. free 10 line ≡ true) (map (λ s. sample_line (series name s)) samples)
  lines-Single [] all = tt
  lines-Single ((labels, value) ∷ samples) ((l, v), all) = (
    free-append 10 (name ++ labels) (32 ∷ value) (free-append 10 name labels single l)
        (ground (arith, v.0)),
    lines-Single samples all,
  )

  pick-samples :
      (samples : List (Bytes × Bytes)) (lines : List Bytes)
      → is_empty name ≡ false
      → starts_with (codes "#") name ≡ false
      → All (λ s. (free 10 s.0 ≡ true) × IsPlain s.1) samples
      → pick (map (λ s. sample_line (series name s)) samples ++ lines)
        ≡ map (series name) samples ++ pick lines
  pick-samples [] lines filled h all = refl
  pick-samples ((labels, value) ∷ samples) lines filled h ((l, v), all) =
      sample-pick name (labels, value) (map (λ s. sample_line (series name s)) samples ++ lines)
        (rw (append_assoc name labels (32 ∷ value))
          (no_comment name (labels ++ 32 ∷ value) filled h))
        v.1
      ∙ ap (◌∷◌ (series name (labels, value))) (pick-samples samples lines filled h all)

-- The header of a metric, taken apart.
header_parts :
    (f : Family)
    → is_header f ≡ true
    → (is_empty f.name ≡ false)
      × (starts_with (codes "#") f.name ≡ false)
      × (free 10 f.name ≡ true)
      × (free 10 f.help ≡ true)
      × (free 10 f.kind ≡ true)
header_parts f h = ground arith

scrape-family :
    (f : Family) (rest : Bytes)
    → IsReadable f
    → scrape (unlines (family_lines f) ++ rest) ≡ shown f ++ scrape rest
unfolding scrape
scrape-family f rest (h, all) =
    let (filled, no_hash, single, help, kind) = header_parts f h in
    let help_line = free-append 10 f.name (32 ∷ f.help) single (ground (arith, help)) in
    let kind_line = free-append 10 f.name (32 ∷ f.kind) single (ground (arith, kind)) in
    ap pick (
      split_lines-unlines (family_lines f) rest
        (help_line, (kind_line, lines-Single f.name single f.samples all)))
    ∙ pick-samples f.name single f.samples (split_lines rest) filled no_hash all

-- A scraper reads from the text just the series and the values that the metrics were given, in
-- order.
pub scrape-exposition :
    (families : List Family)
    → All IsReadable families
    → scrape (exposition families) ≡ all_shown families
unfolding exposition scrape split_lines
scrape-exposition [] all = refl
scrape-exposition (f ∷ families) (readable, all) =
    scrape-family f (exposition families) readable
    ∙ ap (◌++◌ (shown f)) (scrape-exposition families all)
