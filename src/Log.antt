-- ===== src/Log.antt =====
-- The layer of src/log.rs that passes spans and events of the tracing library on to the application's
-- logger.
--
-- A text is the list of its characters' code points. The texts that the standard library's `Display` and
-- `Debug` give of a number, a value or a duration are given with them. `extensions` is what the layer has
-- stored with each span, and `logged` the calls on the logger, newest first. `metadata` is what the
-- registry knows of a span; of a span that it does not know there is nothing to say: `on_new_span` and
-- `on_record` panic there, which tracing rules out.
pub mod Spans
mod Init
mod Examples
use tryst_core_portfolio.Prelude.{
  Text, same_text, ℕ, Bool, true, false, List, [], ◌∷◌, ◌++◌, Option, none, some, if◌then◌else◌,
  ◌==◌, ◌≡◌,
}

pub data LogLevel : Type 0 where
  error warn info debug trace : LogLevel

-- tracing's levels.
pub data Level : Type 0 where
  level_error level_warn level_info level_debug level_trace : Level

-- `From<&Level>`.
abbrev pub from_level : Level → LogLevel
from_level level_error = error
from_level level_warn = warn
from_level level_info = info
from_level level_debug = debug
from_level level_trace = trace

-- `Display`.
abbrev pub display : LogLevel → Text
display error = 101 ∷ 114 ∷ 114 ∷ 111 ∷ 114 ∷ []
display warn = 119 ∷ 97 ∷ 114 ∷ 110 ∷ []
display info = 105 ∷ 110 ∷ 102 ∷ 111 ∷ []
display debug = 100 ∷ 101 ∷ 98 ∷ 117 ∷ 103 ∷ []
display trace = 116 ∷ 114 ∷ 97 ∷ 99 ∷ 101 ∷ []

-- The filter of `init_logger`: "{},gossip_core={}".
abbrev pub filter_str : LogLevel → LogLevel → Text
filter_str general_level gossip_core_level =
    display general_level
    ++ (44 ∷ 103 ∷ 111 ∷ 115 ∷ 115 ∷ 105 ∷ 112 ∷ 95 ∷ 99 ∷ 111 ∷ 114 ∷ 101 ∷ 61 ∷ [])
    ++ display gossip_core_level

-- What a field can be; a number and a value to debug are their texts.
pub data Value : Type 0 where
  str : Text → Value
  i64 : Text → Value
  u64 : Text → Value
  boolean : Bool → Value
  debugged : Text → Value

pub record FfiFieldVisitor : Type 0 where
  pub fields : Text
  pub message : Option Text

abbrev pub new_visitor : FfiFieldVisitor
new_visitor = record { fields = []; message = none }

abbrev pub is_empty : Text → Bool
is_empty [] = true
is_empty (_ ∷ _) = false

-- ", ".
abbrev pub separator : Text
separator = 44 ∷ 32 ∷ []

-- `maybe_add_separator`, and what is pushed after it.
abbrev pub push : Text → FfiFieldVisitor → FfiFieldVisitor
push text v = record v {
  fields = if is_empty v.fields then text else (v.fields ++ (separator ++ text));
}

-- "message".
abbrev pub is_message : Text → Bool
is_message name = same_text name (109 ∷ 101 ∷ 115 ∷ 115 ∷ 97 ∷ 103 ∷ 101 ∷ [])

-- " = ".
abbrev pub equals : Text
equals = 32 ∷ 61 ∷ 32 ∷ []

abbrev pub bool_text : Bool → Text
bool_text true = 116 ∷ 114 ∷ 117 ∷ 101 ∷ []
bool_text false = 102 ∷ 97 ∷ 108 ∷ 115 ∷ 101 ∷ []

-- `record_str`, `record_i64`, `record_u64`, `record_bool` and `record_debug`.
unfoldable pub record_value : Text → Value → FfiFieldVisitor → FfiFieldVisitor
record_value name (str value) v =
    if is_message name
    then record v { message = some value }
    else push (name ++ (equals ++ (34 ∷ (value ++ 34 ∷ [])))) v
record_value name (i64 value) v = push (name ++ (equals ++ value)) v
record_value name (u64 value) v = push (name ++ (equals ++ value)) v
record_value name (boolean value) v = push (name ++ (equals ++ bool_text value)) v
record_value name (debugged value) v =
    if is_message name
    then record v { message = some value }
    else push (name ++ (equals ++ value)) v

-- tracing shows the fields to the visitor one after the other.
unfoldable pub visit : List (Text × Value) → FfiFieldVisitor → FfiFieldVisitor
unfolding record_value
visit [] v = v
visit ((name, value) ∷ rest) v = visit rest (record_value name value v)

pub record Metadata : Type 0 where
  pub name : Text
  pub target : Text
  pub level : Level

pub record SpanData : Type 0 where
  pub start : ℕ
  pub fields : Text

-- A call of `SwiftLogger::log`.
pub record LogCall : Type 0 where
  pub level : LogLevel
  pub target : Text
  pub message : Text

pub record Layer : Type 0 where
  pub extensions : ℕ → Option SpanData
  pub logged : List LogCall

abbrev pub log : Metadata → Text → Layer → Layer
log metadata message l = record l {
  logged =
      record { level = from_level metadata.level; target = metadata.target; message = message }
      ∷ l.logged;
}

abbrev pub insert : ℕ → SpanData → Layer → Layer
insert id data' l = record l { extensions = λ j. if j == id then some data' else l.extensions j }

-- "{} {{ {} }}".
abbrev pub braced : Text → Text → Text
braced text fields = text ++ (32 ∷ 123 ∷ 32 ∷ (fields ++ 32 ∷ 125 ∷ []))

-- "start: ".
abbrev pub start_text : Text
start_text = 115 ∷ 116 ∷ 97 ∷ 114 ∷ 116 ∷ 58 ∷ 32 ∷ []

-- "end: ".
abbrev pub end_text : Text
end_text = 101 ∷ 110 ∷ 100 ∷ 58 ∷ 32 ∷ []

-- " (duration: ".
abbrev pub duration_text : Text
duration_text = 32 ∷ 40 ∷ 100 ∷ 117 ∷ 114 ∷ 97 ∷ 116 ∷ 105 ∷ 111 ∷ 110 ∷ 58 ∷ 32 ∷ []

abbrev pub extend_fields : Text → SpanData → SpanData
extend_fields more data' = record data' {
  fields = if is_empty data'.fields then more else (data'.fields ++ (separator ++ more));
}

abbrev primary : Metadata → Option Text → Text
primary meta none = meta.name
primary meta (some m) = m

-- `on_event`.
unfoldable pub on_event : Metadata → List (Text × Value) → Layer → Layer
unfolding visit
on_event meta values l =
    let visitor = visit values new_visitor in
    let primary_message = primary meta visitor.message in
    log meta
      (if is_empty visitor.fields then primary_message else braced primary_message visitor.fields) l

module _ (metadata : ℕ → Option Metadata) where
  -- `on_new_span`, at the time `now`.
  unfoldable pub on_new_span : ℕ → ℕ → List (Text × Value) → Layer → Layer
  unfolding visit
  on_new_span now id attrs l = elim (metadata id) [
    | none ↦ l
    | some meta ↦
        let fields = (visit attrs new_visitor).fields in
        insert id (record { start = now; fields = fields })
          (log meta (braced (start_text ++ meta.name) fields) l)
  ]

  -- `on_record`.
  unfoldable pub on_record : ℕ → List (Text × Value) → Layer → Layer
  unfolding visit
  on_record id values l = elim (l.extensions id) [
    | none ↦ l
    | some data' ↦
        let more = (visit values new_visitor).fields in
        if is_empty more then l else insert id (extend_fields more data') l
  ]

  -- `on_close`, with the text of the time that the span took.
  unfoldable pub on_close : (ℕ → Text) → ℕ → Layer → Layer
  on_close elapsed id l = elim (metadata id) [
    | none ↦ l
    | some meta ↦ elim (l.extensions id) [
      | none ↦ l
      | some data' ↦
          log meta
            (braced (end_text ++ (meta.name ++ (duration_text ++ (elapsed data'.start ++ 41 ∷ []))))
              data'.fields)
            l
    ]
  ]
