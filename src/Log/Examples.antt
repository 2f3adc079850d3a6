-- ===== src/Log/Examples.antt =====
-- The theorem on spans at a concrete span, and what an event becomes.
use tryst_core_portfolio.Prelude.{
  Text, ℕ, true, List, [], ◌∷◌, ◌++◌, Option, none, some, ◌≡◌, refl, flatten,
}
use tryst_core_portfolio.Log.{
  Value, str, i64, boolean, debugged, Metadata, Layer, level_warn, warn, braced, start_text,
  end_text, duration_text, visit, on_new_span, on_event, on_close,
}
use tryst_core_portfolio.Log.Spans.{join, printed, on_records, span_messages}

abbrev meta : Metadata
meta = record { name = 110 ∷ []; target = 116 ∷ []; level = level_warn }

abbrev only_meta : ℕ → Option Metadata
only_meta id = some meta

abbrev no_calls : Layer
no_calls = record { extensions = λ id. none; logged = [] }

abbrev attrs : List (Text × Value)
attrs = (97 ∷ [], str (120 ∷ [])) ∷ (98 ∷ [], i64 (53 ∷ [])) ∷ []

-- "message".
abbrev message_name : Text
message_name = 109 ∷ 101 ∷ 115 ∷ 115 ∷ 97 ∷ 103 ∷ 101 ∷ []

abbrev records : List (List (Text × Value))
records = [] ∷ ((message_name, str (121 ∷ [])) ∷ []) ∷ ((99 ∷ [], boolean true) ∷ []) ∷ []

abbrev in_seconds : ℕ → Text
in_seconds start = 115 ∷ []

span_messages_example :
    (on_close only_meta in_seconds 3
      (on_records only_meta 3 records (on_new_span only_meta 40 3 attrs no_calls))).logged
    ≡ record {
      level = warn;
      target = 116 ∷ [];
      message =
          braced
            (end_text ++ ((110 ∷ []) ++ (duration_text ++ ((115 ∷ []) ++ 41 ∷ []))))
            (join (printed (attrs ++ flatten records)));
    }
      ∷ record {
        level = warn;
        target = 116 ∷ [];
        message = braced (start_text ++ 110 ∷ []) (join (printed attrs));
      }
      ∷ []
span_messages_example = span_messages only_meta 3 meta 40 in_seconds attrs records no_calls refl

-- "y { c = true }".
event_text :
    (on_event meta
      ((message_name, debugged (121 ∷ [])) ∷ (99 ∷ [], boolean true) ∷ [])
      no_calls).logged
    ≡ record {
      level = warn;
      target = 116 ∷ [];
      message = 121 ∷ 32 ∷ 123 ∷ 32 ∷ 99 ∷ 32 ∷ 61 ∷ 32 ∷ 116 ∷ 114 ∷ 117 ∷ 101 ∷ 32 ∷ 125 ∷ [];
    }
      ∷ []
unfolding on_event visit
event_text = refl
