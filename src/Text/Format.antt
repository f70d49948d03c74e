-- ===== src/Text/Format.antt =====
-- `format!`: the arguments of a template, already printed, in its places `{}`; `{{` and `}}` stand
-- for single braces. A template is a list of pieces, as in `concat!`.
use ds4_rs.Base.{List, [], ◌∷◌, ◌++◌, ◌==◌, ◌&&◌, true, false, String, map}
use ds4_rs.Bytes.{Bytes}
use ds4_rs.Text.{utf8, concat}

abbrev pub pieces : List String → Bytes
pieces [] = []
pieces (t ∷ ts) = utf8 t ++ pieces ts

abbrev first_argument : List Bytes → Bytes
first_argument [] = []
first_argument (a ∷ args) = a

abbrev other_arguments : List Bytes → List Bytes
other_arguments [] = []
other_arguments (a ∷ args) = args

unfoldable pub format_bytes : Bytes → List Bytes → Bytes
format_bytes [] args = []
format_bytes (b ∷ []) args = b ∷ []
format_bytes (b ∷ c ∷ t) args = elim (b == 123 && c == 123) [
  | true ↦ 123 ∷ format_bytes t args
  | false ↦ elim (b == 125 && c == 125) [
    | true ↦ 125 ∷ format_bytes t args
    | false ↦ elim (b == 123 && c == 125) [
      | true ↦ first_argument args ++ format_bytes t (other_arguments args)
      | false ↦ b ∷ format_bytes (c ∷ t) args
    ]
  ]
]

unfoldable pub format : List String → List Bytes → Bytes
unfolding format_bytes
format template args = format_bytes (pieces template) args

-- The same without places.
unfoldable pub text_of : List String → Bytes
text_of template = pieces template

-- `for chunk in chunks { out.push_str(..) }`
unfoldable pub each : (Bytes → Bytes) → List Bytes → Bytes
unfolding concat
each print chunks = concat (map print chunks)
