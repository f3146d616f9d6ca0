-- ===== src/Text/Space.antt =====
-- unicode.IsSpace, strings.TrimSpace and strings.Fields.
use field_cage.Base.{ℕ, Bool, ◌||◌, ◌&&◌, not, List, [], ◌∷◌, ◌++◌, ◌==◌, if◌then◌else◌}
use field_cage.Text.Bytes.{Bytes, is_empty}
use field_cage.Text.Utf8.{within, Chunk, chunks, unchunk}

unfoldable pub is_space : ℕ → Bool
is_space r =
    within 0x09 0x0D r
    || r == 0x20
    || r == 0x85
    || r == 0xA0
    || r == 0x1680
    || within 0x2000 0x200A r
    || r == 0x2028
    || r == 0x2029
    || r == 0x202F
    || r == 0x205F
    || r == 0x3000

unfoldable pub trim_left : List Chunk → List Chunk
unfolding is_space
trim_left [] = []
trim_left (k ∷ ks) = let rest = trim_left ks in if is_space k.rune then rest else k ∷ ks

unfoldable pub trim_end : List Chunk → List Chunk
unfolding is_space
trim_end [] = []
trim_end (k ∷ ks) =
    let rest = trim_end ks in if is_empty rest && is_space k.rune then [] else k ∷ rest

-- strings.TrimSpace
unfoldable pub trim_space : Bytes → Bytes
unfolding trim_left trim_end chunks unchunk
trim_space s = unchunk (trim_end (trim_left (chunks s)))

-- the second argument is the field that is being read
fields_from : List Chunk → Bytes → List Bytes
unfolding is_space
fields_from [] cur = if is_empty cur then [] else cur ∷ []
fields_from (k ∷ ks) cur =
    let rest = fields_from ks (if is_space k.rune then [] else cur ++ k.raw) in
    if is_space k.rune && not (is_empty cur) then cur ∷ rest else rest

-- strings.Fields
unfoldable pub fields : Bytes → List Bytes
unfolding fields_from chunks
fields s = fields_from (chunks s) []
