-- ===== src/Metrics/Exposition.antt =====
-- The text format of the metrics, as the macro and the blocks of `render` write it (src/metrics.rs).
use Prim.Native.Char.{code}
use Prim.Native.String.{String}
use g_kms.Prelude.{ℕ, ◌+◌, ◌/◌, ◌%◌, ltb, if◌then◌else◌, List, [], ◌∷◌, ◌++◌, map, Bytes, codes}

-- The UTF-8 bytes of a character of the basic plane.
abbrev pub utf8 : ℕ → Bytes
utf8 c =
    if ltb c 128
    then c ∷ []
    else if ltb c 2048
    then (192 + c / 64) ∷ (128 + c % 64) ∷ []
    else (224 + c / 4096) ∷ (128 + c / 64 % 64) ∷ (128 + c % 64) ∷ []

-- The bytes of a literal.
abbrev pub text : String → Bytes
text String.[] = []
text (String.◌∷◌ c s) = utf8 (code c) ++ text s

-- A metric: its samples are pairs of the labels and the value, as they are written.
pub record Family : Type 0 where
  pub name : Bytes
  pub help : Bytes
  pub kind : Bytes
  pub samples : List (Bytes × Bytes)

abbrev pub gauge : Bytes
gauge = codes "gauge"

abbrev pub counter : Bytes
counter = codes "counter"

-- The macro `g!`: one sample, without labels.
abbrev pub g : Bytes → Bytes → Bytes → Bytes → Family
g name help kind value = record {
  name = name;
  help = help;
  kind = kind;
  samples = ([], value) ∷ [];
}

-- `{key="value"}`.
abbrev pub label : Bytes → Bytes → Bytes
label key value = codes "{" ++ (key ++ (codes "=\"" ++ (value ++ codes "\"}")))

-- The name with the labels.
abbrev pub series : Bytes → Bytes × Bytes → Bytes × Bytes
series name (labels, value) = (name ++ labels, value)

abbrev pub sample_line : Bytes × Bytes → Bytes
sample_line (key, value) = key ++ 32 ∷ value

-- The lines of a metric.
abbrev pub family_lines : Family → List Bytes
family_lines f =
    (codes "# HELP " ++ (f.name ++ 32 ∷ f.help))
    ∷ (codes "# TYPE " ++ (f.name ++ 32 ∷ f.kind))
    ∷ map (λ s. sample_line (series f.name s)) f.samples

-- Each line with its line feed.
unfoldable pub unlines : List Bytes → Bytes
unlines [] = []
unlines (line ∷ lines) = line ++ 10 ∷ unlines lines

abbrev pub joined : List (List Family) → List Family
joined [] = []
joined (group ∷ groups) = group ++ joined groups

-- The metrics of a text, in order.
unfoldable pub exposition : List Family → Bytes
unfolding unlines
exposition [] = []
exposition (f ∷ families) = unlines (family_lines f) ++ exposition families
