-- ===== src/Log/Spans.antt =====
-- What the logger of src/log.rs hears of a span, from its start to its end.
use tryst_core_portfolio.Prelude.{
  Text, ℕ, false, List, [], ◌∷◌, ◌++◌, Option, some, if◌then◌else◌, ◌≡◌, refl, sym, ap, ◌∙◌, arith,
  All, append_assoc, append-nil, flatten,
}
use tryst_core_portfolio.Log.{
  Value, str, i64, u64, boolean, debugged, FfiFieldVisitor, new_visitor, is_empty, separator,
  is_message, equals, bool_text, record_value, visit, Metadata, LogCall, Layer, from_level, braced,
  start_text, end_text, duration_text, on_new_span, on_record, on_close,
}

-- The texts with a separator between any two of them.
abbrev pub join : List Text → Text
join [] = []
join (t ∷ []) = t
join (t ∷ u ∷ ts) = t ++ (separator ++ join (u ∷ ts))

-- What there is to see of a field.
abbrev pub printed_value : Text → Value → List Text
printed_value name (str value) =
    if is_message name then [] else ((name ++ (equals ++ (34 ∷ (value ++ 34 ∷ [])))) ∷ [])
printed_value name (i64 value) = (name ++ (equals ++ value)) ∷ []
printed_value name (u64 value) = (name ++ (equals ++ value)) ∷ []
printed_value name (boolean value) = (name ++ (equals ++ bool_text value)) ∷ []
printed_value name (debugged value) =
    if is_message name then [] else ((name ++ (equals ++ value)) ∷ [])

-- The fields, apart from messages, in their order.
abbrev pub printed : List (Text × Value) → List Text
printed [] = []
printed ((name, value) ∷ rest) = printed_value name value ++ printed rest

-- Two texts, with a separator if neither is empty.
abbrev both : Text → Text → Text
both a b = if is_empty b then a else if is_empty a then b else (a ++ (separator ++ b))

both_assoc : (a b c : Text) → both (both a b) c ≡ both a (both b c)
both_assoc [] [] [] = refl
both_assoc [] [] (_ ∷ _) = refl
both_assoc [] (_ ∷ _) [] = refl
both_assoc [] (_ ∷ _) (_ ∷ _) = refl
both_assoc (_ ∷ _) [] [] = refl
both_assoc (_ ∷ _) [] (_ ∷ _) = refl
both_assoc (_ ∷ _) (_ ∷ _) [] = refl
both_assoc (x ∷ a) (y ∷ b) (z ∷ c) = append_assoc (x ∷ a) (44 ∷ 32 ∷ y ∷ b) (44 ∷ 32 ∷ z ∷ c)

abbrev Filled : List Text → Type 0
Filled = All (λ t. is_empty t ≡ false)

filled_text : (name rest : Text) → is_empty (name ++ (equals ++ rest)) ≡ false
filled_text [] rest = refl
filled_text (_ ∷ _) rest = refl

filled_join : (u : Text) (ts : List Text) → is_empty u ≡ false → is_empty (join (u ∷ ts)) ≡ false
filled_join u [] h = h
filled_join [] (t ∷ ts) h = ground arith
filled_join (x ∷ u) (t ∷ ts) h = refl

join_cons :
    (t : Text) (ts : List Text) → is_empty t ≡ false → Filled ts → join (t ∷ ts) ≡ both t (join ts)
join_cons t [] h f = refl
join_cons t (u ∷ ts) h f = rw (filled_join u ts f.0, h) refl

record_lem :
    (name : Text) (value : Value) (v : FfiFieldVisitor)
    → ((record_value name value v).fields ≡ both v.fields (join (printed_value name value)))
      × Filled (printed_value name value)
unfolding record_value
record_lem name (str value) v = ground (arith, filled_text name (34 ∷ (value ++ 34 ∷ [])))
record_lem name (i64 value) v = ground (arith, filled_text name value)
record_lem name (u64 value) v = ground (arith, filled_text name value)
record_lem name (boolean value) v = ground (arith, filled_text name (bool_text value))
record_lem name (debugged value) v = ground (arith, filled_text name value)

both_empty : (a : Text) → both [] a ≡ a
both_empty [] = refl
both_empty (_ ∷ _) = refl

Filled-append : (ts us : List Text) → Filled ts → Filled us → Filled (ts ++ us)
Filled-append [] us f g = g
Filled-append (t ∷ ts) us f g = (f.0, Filled-append ts us f.1 g)

join-append :
    (ts us : List Text) → Filled ts → Filled us → join (ts ++ us) ≡ both (join ts) (join us)
join-append [] us f g = sym (both_empty (join us))
join-append (t ∷ ts) us f g =
    join_cons t (ts ++ us) f.0 (Filled-append ts us f.1 g)
    ∙ ap (both t) (join-append ts us f.1 g)
    ∙ sym (both_assoc t (join ts) (join us))
    ∙ ap (λ x. both x (join us)) (sym (join_cons t ts f.0 f.1))

printed-Filled : (fs : List (Text × Value)) → Filled (printed fs)
printed-Filled [] = tt
printed-Filled ((name, value) ∷ rest) =
    Filled-append (printed_value name value) (printed rest) (record_lem name value new_visitor).1
      (printed-Filled rest)

printed-append : (fs gs : List (Text × Value)) → printed (fs ++ gs) ≡ printed fs ++ printed gs
printed-append [] gs = refl
printed-append ((name, value) ∷ fs) gs =
    ap (λ l. printed_value name value ++ l) (printed-append fs gs)
    ∙ sym (append_assoc (printed_value name value) (printed fs) (printed gs))

join-both :
    (fs gs : List (Text × Value))
    → join (printed (fs ++ gs)) ≡ both (join (printed fs)) (join (printed gs))
join-both fs gs =
    ap join (printed-append fs gs)
    ∙ join-append (printed fs) (printed gs) (printed-Filled fs) (printed-Filled gs)

visit_lem :
    (fs : List (Text × Value)) (v : FfiFieldVisitor)
    → (visit fs v).fields ≡ both v.fields (join (printed fs))
unfolding visit
visit_lem [] v = refl
visit_lem ((name, value) ∷ rest) v =
    let r = record_lem name value v in
    let one = printed_value name value in
    visit_lem rest (record_value name value v)
    ∙ ap (λ t. both t (join (printed rest))) r.0
    ∙ both_assoc v.fields (join one) (join (printed rest))
    ∙ ap (both v.fields) (sym (join-append one (printed rest) r.1 (printed-Filled rest)))

new_visitor_lem : (fs : List (Text × Value)) → (visit fs new_visitor).fields ≡ join (printed fs)
new_visitor_lem fs = visit_lem fs new_visitor ∙ both_empty (join (printed fs))

-- Some calls of `on_record` for one span.
pub on_records : (metadata : ℕ → Option Metadata) → ℕ → List (List (Text × Value)) → Layer → Layer
on_records metadata id [] l = l
on_records metadata id (fs ∷ rest) l = on_records metadata id rest (on_record metadata id fs l)

module _ (metadata : ℕ → Option Metadata) (id : ℕ) where
  on_record_lem :
      (fs : List (Text × Value)) (now : ℕ) (fields : Text) (l : Layer)
      → l.extensions id ≡ some (record { start = now; fields = fields })
      → ((on_record metadata id fs l).extensions id
          ≡ some (record { start = now; fields = both fields (join (printed fs)) }))
        × ((on_record metadata id fs l).logged ≡ l.logged)
  unfolding on_record
  on_record_lem fs now fields l h = ground (arith, new_visitor_lem fs)

  on_records_lem :
      (records : List (List (Text × Value))) (before : List (Text × Value)) (now : ℕ) (l : Layer)
      → l.extensions id ≡ some (record { start = now; fields = join (printed before) })
      → ((on_records metadata id records l).extensions id
          ≡ some (record { start = now; fields = join (printed (before ++ flatten records)) }))
        × ((on_records metadata id records l).logged ≡ l.logged)
  unfolding on_records
  on_records_lem [] before now l h = rw (append-nil before) (h, refl)
  on_records_lem (fs ∷ rest) before now l h =
      let (e, q) = on_record_lem fs now (join (printed before)) l h in
      let e' =
        e ∙ ap (λ t. some (record { start = now; fields = t })) (sym (join-both before fs)) in
      let (x, y) = on_records_lem rest (before ++ fs) now (on_record metadata id fs l) e' in
      (
        x
            ∙ ap (λ m. some (record { start = now; fields = join (printed m) }))
                (append_assoc before fs (flatten rest)),
        y ∙ q,
      )

  abbrev start_call : Metadata → Text → LogCall
  start_call meta fields = record {
    level = from_level meta.level;
    target = meta.target;
    message = braced (start_text ++ meta.name) fields;
  }

  abbrev end_call : Metadata → Text → Text → LogCall
  end_call meta elapsed fields = record {
    level = from_level meta.level;
    target = meta.target;
    message = braced (end_text ++ (meta.name ++ (duration_text ++ (elapsed ++ 41 ∷ [])))) fields;
  }

  on_new_span_lem :
      (meta : Metadata) (now : ℕ) (attrs : List (Text × Value)) (l : Layer)
      → metadata id ≡ some meta
      → ((on_new_span metadata now id attrs l).extensions id
          ≡ some (record { start = now; fields = join (printed attrs) }))
        × ((on_new_span metadata now id attrs l).logged
            ≡ start_call meta (join (printed attrs)) ∷ l.logged)
  unfolding on_new_span
  on_new_span_lem meta now attrs l known = ground (arith, new_visitor_lem attrs)

  on_close_lem :
      (meta : Metadata) (now : ℕ) (elapsed : ℕ → Text) (fields : Text) (l : Layer)
      → metadata id ≡ some meta
      → l.extensions id ≡ some (record { start = now; fields = fields })
      → (on_close metadata elapsed id l).logged ≡ end_call meta (elapsed now) fields ∷ l.logged
  unfolding on_close
  on_close_lem meta now elapsed fields l known h = ground arith

  -- The logger hears of a span that the registry knows, on the level and with the target of the span:
  -- at the start the fields that it starts with, and at the end these and all that were recorded, apart
  -- from messages, in their order and with a separator between any two.
  pub span_messages :
      (meta : Metadata) (now : ℕ) (elapsed : ℕ → Text) (attrs : List (Text × Value))
      (records : List (List (Text × Value))) (l : Layer)
      → metadata id ≡ some meta
      → (on_close metadata elapsed id
          (on_records metadata id records (on_new_span metadata now id attrs l))).logged
        ≡ record {
          level = from_level meta.level;
          target = meta.target;
          message =
              braced
                (end_text ++ (meta.name ++ (duration_text ++ (elapsed now ++ 41 ∷ []))))
                (join (printed (attrs ++ flatten records)));
        }
          ∷ record {
            level = from_level meta.level;
            target = meta.target;
            message = braced (start_text ++ meta.name) (join (printed attrs));
          }
          ∷ l.logged
  span_messages meta now elapsed attrs records l known =
      let l1 = on_new_span metadata now id attrs l in
      let (stored, started) = on_new_span_lem meta now attrs l known in
      let (kept, same) = on_records_lem records attrs now l1 stored in
      let l2 = on_records metadata id records l1 in
      on_close_lem meta now elapsed (join (printed (attrs ++ flatten records))) l2 known kept
      ∙ ap (λ rest. end_call meta (elapsed now) (join (printed (attrs ++ flatten records))) ∷ rest)
          (same ∙ started)
