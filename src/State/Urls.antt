-- ===== src/State/Urls.antt =====
-- Sorting and deduplicating strings, as `AppState::peer_urls` does.
use g_kms.Prelude.{
  Bool, true, false, ◌&&◌, ◌||◌, ltb, ◌==◌, beq_bytes, if◌then◌else◌, List, [], ◌∷◌, Bytes,
}

-- The order of byte strings.
abbrev pub leb_bytes : Bytes → Bytes → Bool
leb_bytes [] ys = true
leb_bytes (x ∷ xs) [] = false
leb_bytes (x ∷ xs) (y ∷ ys) = ltb x y || (x == y && leb_bytes xs ys)

unfoldable pub insert_url : Bytes → List Bytes → List Bytes
insert_url u [] = u ∷ []
insert_url u (v ∷ vs) = let rest = insert_url u vs in if leb_bytes u v then u ∷ v ∷ vs else v ∷ rest

unfoldable pub sort_urls : List Bytes → List Bytes
unfolding insert_url
sort_urls [] = []
sort_urls (u ∷ us) = insert_url u (sort_urls us)

-- `dedup`: of equal neighbours the first is kept.
unfoldable pub dedup_from : Bytes → List Bytes → List Bytes
dedup_from u [] = []
dedup_from u (v ∷ vs) = let rest = dedup_from v vs in if beq_bytes u v then rest else v ∷ rest

unfoldable pub dedup : List Bytes → List Bytes
unfolding dedup_from
dedup [] = []
dedup (u ∷ us) = u ∷ dedup_from u us
