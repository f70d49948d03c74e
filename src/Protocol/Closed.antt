-- ===== src/Protocol/Closed.antt =====
-- The escapes of tool results and of parameters (src/protocol/parse.rs, src/protocol/render.rs).
use ds4_rs.Base.{◌≡◌, false, arith}
use ds4_rs.Bytes.{Bytes}
use ds4_rs.Protocol.Escape.{escape_dsml_parameter_text}
use ds4_rs.Protocol.Request.Collect.{escape_tool_result_text}
use ds4_rs.Text.Replace.{contains-replace_from}
use ds4_rs.Text.{utf8, contains, replace}

-- The result of a tool, escaped, does not contain `</tool_result>`, and the value of a parameter,
-- escaped, does not contain `</｜DSML｜parameter>`, whatever they were.
pub contains-escape :
    (s : Bytes)
    → (contains (escape_tool_result_text s) (utf8 "</tool_result>") ≡ false)
      × (contains (escape_dsml_parameter_text s) (utf8 "</｜DSML｜parameter>") ≡ false)
unfolding escape_tool_result_text escape_dsml_parameter_text replace
contains-escape s = (
  contains-replace_from 60 _ 38 _ 0 s (ground arith) (ground arith),
  contains-replace_from 60 _ 38 _ 0 s (ground arith) (ground arith),
)
