-- ===== src/Tests/Texts.antt =====
-- The repair of texts, their limit, and names, at concrete inputs.
use a.Base.{◌≡◌, refl, [], ◌∷◌, some, arith, Bytes, codes}
use a.Core.Text.{is_continuation, sanitize_utf8}
use a.Core.Text.Utf8.{IsUtf8Shaped, sanitize_utf8-IsUtf8Shaped}
use a.Core.Text.Utf8.Repair.{sanitize_utf8_id}
use a.Skills.Names.{
  parse_qualified_name, build_qualified_name, github, parse_qualified_name-build_qualified_name,
}

-- "é" and then a cut "é"
abbrev cut_text : Bytes
cut_text = 0xC3 ∷ 0xA9 ∷ 0xC3 ∷ []

abbrev whole_text : Bytes
whole_text = 0xC3 ∷ 0xA9 ∷ 97 ∷ []

whole_text-IsUtf8Shaped : IsUtf8Shaped whole_text
unfolding is_continuation
whole_text-IsUtf8Shaped =
    IsUtf8Shaped.two_of 0xC3 0xA9 (omega arith) (omega arith) refl
      (IsUtf8Shaped.one 97 (omega arith) IsUtf8Shaped.done)

sanitize_utf8-IsUtf8Shaped_example : IsUtf8Shaped (sanitize_utf8 cut_text)
sanitize_utf8-IsUtf8Shaped_example = sanitize_utf8-IsUtf8Shaped cut_text

sanitize_utf8_id_example : sanitize_utf8 whole_text ≡ whole_text
sanitize_utf8_id_example = sanitize_utf8_id whole_text whole_text-IsUtf8Shaped

parse_qualified_name-build_qualified_name_example :
    parse_qualified_name
      (build_qualified_name (codes "github_ann") (codes "git-tools") (codes "log_all"))
    ≡ some (codes "github_ann", (codes "git-tools", codes "log_all"))
parse_qualified_name-build_qualified_name_example =
    parse_qualified_name-build_qualified_name (github (codes "ann")) (codes "git-tools")
      (codes "log_all") refl refl
