-- ===== src/Baton.antt =====
-- The access inventory (control_plane/baton_client.py, and access_inventory of
-- control_plane/c1_governance.py).
pub mod Summary
use Prim.Native.String.{slice}
use nemoclaw_smb.Base.{
  ℕ, ◌+◌, String, Bool, true, false, Option, none, some, List, [], ◌∷◌, ◌++◌, member, str_eq,
  str_le, not, ◌&&◌, if◌then◌else◌,
}
use nemoclaw_smb.Base.Dict.{Dict, get, put}
use nemoclaw_smb.Base.Act.{Result, err, ok, os_error, type_error, value_error}
use nemoclaw_smb.Json.{Value, Fields, Items, arr, cons, nil, obj, str}
use nemoclaw_smb.Platform.{Platform}
use nemoclaw_smb.Platform.Values.{field_of, truthy}

-- What `summarize_seats` holds of a resource.
pub record Seats : Type 0 where
  pub total : ℕ
  pub users : List String

module _ ⦃p : Platform⦄ where
  open p use {Float}

  pub record AccessGrant : Type 0 where
    pub principal : String
    pub resource : String
    pub entitlement : String
    pub last_used : Option (Value Float)
    pub source_connector : String

  abbrev text_of : Value Float → String
  text_of (str s) = s
  text_of v = p.str_value v

  -- `str(item.get(key, other))`
  abbrev text_field : String → String → Fields Float → String
  text_field key other item = elim (field_of key item) [ none ↦ other | some v ↦ text_of v ]

  -- `item.get(key) or None`
  abbrev filled : Option (Value Float) → Option (Value Float)
  filled none = none
  filled (some v) = if truthy v then some v else none

  abbrev grant_of : String → Fields Float → AccessGrant
  grant_of source item = record {
    principal = text_field "principal" "" item;
    resource = text_field "resource" "" item;
    entitlement = text_field "entitlement" "" item;
    last_used = filled (field_of "last_used" item);
    source_connector = text_field "source_connector" source item;
  }

  -- the grants of a list, in which only objects count
  pub grants_of : String → Items Float → List AccessGrant
  grants_of source nil = []
  grants_of source (cons (obj item) items) = grant_of source item ∷ grants_of source items
  grants_of source (cons _ items) = grants_of source items

  -- the first of the keys whose value is a list
  abbrev first_list : List String → Fields Float → Items Float
  first_list [] fields = nil
  first_list (key ∷ keys) fields =
      let later = first_list keys fields in
      elim (field_of key fields) [ some (arr items) ↦ items | _ ↦ later ]

  -- `_parse_baton_output` of a value that has been read
  pub parse_baton_output : Value Float → List AccessGrant
  parse_baton_output (arr items) = grants_of "baton" items
  parse_baton_output (obj fields) =
      grants_of "baton" (first_list ("grants" ∷ "access" ∷ "items" ∷ "results" ∷ []) fields)
  parse_baton_output _ = []

  -- What a loop over a value finds: texts and keys are no objects, and other values cannot be looped over.
  abbrev looped : Value Float → Result (List AccessGrant)
  looped (arr items) = ok (grants_of "fixture" items)
  looped (obj fields) = ok []
  looped (str s) = ok []
  looped _ = err type_error

  abbrev fixture_items : Value Float → Result (List AccessGrant)
  fixture_items (obj fields) = elim (field_of "grants" fields) [ none ↦ ok [] | some v ↦ looped v ]
  fixture_items v = looped v

  -- `_load_fixture`
  pub load_fixture : Result (List AccessGrant)
  load_fixture = elim (p.read_json "fixtures/baton_access_sample.json") [
    | none ↦ err os_error
    | some v ↦ fixture_items v
  ]

  abbrev or_empty : Option String → String
  or_empty none = ""
  or_empty (some s) = s

  abbrev from_fixture : Result (List AccessGrant × String)
  from_fixture = elim load_fixture [ err x ↦ err x | ok grants ↦ ok (grants, "fixture") ]

  -- the program where it is there and has a file, and the bundled fixture where it fails
  pub fetch_access : ℕ → Option String → Option String → Result (List AccessGrant × String)
  fetch_access tick connector c1z_path =
      let given = or_empty c1z_path in
      let resolved = if str_eq given "" then or_empty (p.getenv "BATON_C1Z") else given in
      if p.has_baton && not (str_eq resolved "")
      then elim (p.baton_access tick resolved connector) [
        | none ↦ from_fixture
        | some v ↦ ok (parse_baton_output v, "baton")
      ]
      else from_fixture

  abbrev pub no_seats : Seats
  no_seats = record { total = 0; users = [] }

  abbrev pub seats_or : Option Seats → Seats
  seats_or none = no_seats
  seats_or (some s) = s

  -- one round of the loop on the entry of the resource
  unfoldable pub with_grant : AccessGrant → Seats → Seats
  with_grant g s = record {
    total = s.total + 1;
    users = if member g.principal s.users then s.users else s.users ++ (g.principal ∷ []);
  }

  unfoldable pub summarize_from : List AccessGrant → Dict Seats → Dict Seats
  summarize_from [] summary = summary
  summarize_from (g ∷ gs) summary =
      summarize_from gs (put g.resource (with_grant g (seats_or (get g.resource summary))) summary)

  abbrev pub summarize_seats : List AccessGrant → Dict Seats
  summarize_seats grants = summarize_from grants []

  -- whether a grant is idle, `ValueError`s and missing dates being skipped
  abbrev is_idle : String → AccessGrant → Result Bool
  is_idle cutoff g = elim g.last_used [
    | none ↦ ok false
    | some (str s) ↦ elim (p.iso_day s) [
      | none ↦ ok false
      | some used ↦ ok (not (str_le cutoff used))
    ]
    | some _ ↦ err type_error
  ]

  abbrev idle_grants : String → List AccessGrant → Result (List AccessGrant)
  idle_grants cutoff [] = ok []
  idle_grants cutoff (g ∷ gs) =
      let later = idle_grants cutoff gs in
      elim (is_idle cutoff g) [
        | err x ↦ err x
        | ok idle ↦ elim later [ err x ↦ err x | ok more ↦ ok (if idle then g ∷ more else more) ]
      ]

  -- the day from which the days are counted back
  abbrev reference_day : ℕ → Option String → Result String
  reference_day tick none = ok (slice (p.clock tick).iso 0 10)
  reference_day tick (some s) =
      if str_eq s ""
      then ok (slice (p.clock tick).iso 0 10)
      else elim (p.iso_day s) [ none ↦ err value_error | some day ↦ ok day ]

  pub unused_seats : ℕ → List AccessGrant → ℕ → Option String → Result (List AccessGrant)
  unused_seats tick grants days reference = elim (reference_day tick reference) [
    | err x ↦ err x
    | ok day ↦ idle_grants (p.days_before days day) grants
  ]

  pub record Inventory : Type 0 where
    pub grants : List AccessGrant
    pub source : String
    pub seat_summary : Dict Seats

  -- `access_inventory`
  unfoldable pub access_inventory : ℕ → Result Inventory
  access_inventory tick = elim (fetch_access tick none none) [
    | err x ↦ err x
    | ok (grants, source) ↦
        ok (record { grants = grants; source = source; seat_summary = summarize_seats grants })
  ]
