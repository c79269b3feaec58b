-- ===== src/Config/Load.antt =====
-- `Load` and `Duration` of internal/config/config.go, over what `encoding/json` and `time` do.
use est.Common.{ℤ, Bytes, ascii, Result, context, ◌>>=◌}
use est.Config.{Config}

-- `read_file` is `os.ReadFile`, `unmarshal` is `json.Unmarshal` into a zero `Config`.
module _ (read_file : Bytes → Result Bytes) (unmarshal : Bytes → Result Config) where
  unfoldable pub load : Bytes → Result Config
  load path = do
    file ← context (ascii "config: read") (read_file path)
    context (ascii "config: parse") (unmarshal file)

-- The JSON of a string, and the text of a `time.Duration`.
pub record DurationTools : Type 0 where
  pub marshal_string : Bytes → Result Bytes
  pub unmarshal_string : Bytes → Result Bytes
  pub duration_string : ℤ → Bytes
  pub parse_duration : Bytes → Result ℤ

module _ (D : DurationTools) where
  unfoldable pub marshal_duration : ℤ → Result Bytes
  marshal_duration d = D.marshal_string (D.duration_string d)

  unfoldable pub unmarshal_duration : Bytes → Result ℤ
  unmarshal_duration json = do
    s ← D.unmarshal_string json
    context (ascii "invalid duration") (D.parse_duration s)
