-- ===== src/Examples.antt =====
-- A concrete platform, on which each theorem with hypotheses is applied.
mod Chains
mod Gates
mod Payments
mod Earnings
mod Envelopes
mod Agents
mod Analysis
use nemoclaw_smb.Base.{
  ℕ, ◌+◌, ◌-◌, ◌*◌, ◌/◌, ◌≡◌, refl, String, Bool, true, false, Option, none, some, List, [], ◌∷◌,
  ltb, leb, str_eq, length, if◌then◌else◌,
}
use nemoclaw_smb.Json.{Value}
use nemoclaw_smb.Platform.{Platform, IsLawful, Moment, PolicyFile, TenantFile, entry}
use nemoclaw_smb.Base.Dict.{Dict}

abbrev sum : List ℕ → ℕ
sum [] = 0
sum (x ∷ xs) = x + sum xs

-- The platform counts whole dollars, and its one digest has 64 characters.
abbrev pub desk_digest : String
desk_digest = "aaaaaaaaaaaaaaaaaaaaaaaaaaaaaaaaaaaaaaaaaaaaaaaaaaaaaaaaaaaaaaaa"

abbrev pub desk_policy : PolicyFile ℕ
desk_policy = record {
  blocked_vendors = some ("Evil Corp" ∷ "vault:open" ∷ []);
  vendors = some (("AWS", 500) ∷ []);
  default_limit = none;
}

abbrev pub desk_tenant : TenantFile ℕ
desk_tenant = record {
  data_root = none;
  brain_path = none;
  audit_path = none;
  llm_routing = none;
  sensitivity = some "restricted";
  mode = none;
  local_model = some "gemma4:26b";
  thresholds = none;
  ingestion = none;
}

-- A spreadsheet with a monthly charge, of which one stands there twice.
abbrev bank_rows : List (List String)
bank_rows =
    ("date" ∷ "vendor" ∷ "amount" ∷ "category" ∷ "direction" ∷ [])
    ∷ ("2026-06-02" ∷ "AWS" ∷ "100" ∷ "Cloud" ∷ "expense" ∷ [])
    ∷ ("2026-05-02" ∷ "AWS" ∷ "100" ∷ "Cloud" ∷ "expense" ∷ [])
    ∷ ("2026-06-02" ∷ "AWS" ∷ "100" ∷ "Cloud" ∷ "expense" ∷ [])
    ∷ []

instance abbrev pub desk : Platform
desk = record {
  Float = ℕ;
  of_ℕ = λ n. n;
  lt = ltb;
  le = leb;
  add = λ x y. x + y;
  sub = λ x y. x - y;
  mul = λ x y. x * y;
  div = λ x y. x / y;
  trunc = λ x. x;
  round_to = λ n x. x;
  mean = λ xs. sum xs / length xs;
  pstdev = λ xs. 1;
  stdev = λ xs. 1;
  abs = λ x. x;
  parse_int = λ s. none;
  parse_float = λ s. if str_eq s "100" then some 100 else none;
  show_float = λ x. "1.0";
  show_fixed = λ n x. "1";
  lower = λ s. if str_eq s "Bearer" then "bearer" else s;
  strip = λ s. s;
  upper = λ s. s;
  title = λ s. s;
  show_texts = λ l. "[]";
  show_floats = λ l. "[]";
  split = λ s. "Bearer" ∷ s ∷ [];
  show_int = λ n. "1";
  sha256 = λ s. desk_digest;
  canonical = λ d. "{}";
  dumps = λ v. "[]";
  compact = λ v. "{}";
  str_value = λ v. "v";
  key_of_b64 = λ s. none;
  generate_key = λ i. ("priv", "pub");
  ed25519_sign = λ key text. "sig";
  ed25519_verify = λ key sig text. true;
  has_authority_runtime = false;
  generate_key_pair = λ i. none;
  create_simple_envelope = λ i agent scopes key skill resources policy. none;
  model_validate = λ d. none;
  repr = λ s. s;
  Line = Dict (Value ℕ);
  dump = λ d. d;
  load = λ l. entry l;
  size = λ l. 40 * length l;
  clip = λ n l. l;
  pieces = λ l. l ∷ [];
  is_blank = λ l. false;
  show_percent = λ x. "1%";
  call_nemotron = λ i prompt. "answer";
  latency_ms = λ i. 0;
  total_seconds = λ a b. 0;
  list_of_set = λ l. "owner-001" ∷ "owner-002" ∷ "owner-003" ∷ [];
  clock = λ i. record { iso = "2026-06-01T09:00:00"; day = "20260601"; secs = i };
  getenv = λ name.
      if str_eq name "STRIPE_SECRET_KEY"
      then some "sk_live_1"
      else if str_eq name "DEMO_MODE"
      then some "false"
      else none;
  read_policy = λ path. some desk_policy;
  http = λ i url. none;
  client_assertion = λ i client secret audience. none;
  has_npx = false;
  has_stripe_sdk = false;
  mcp_payment = λ i cents args. none;
  sdk_payment = λ i cents key. none;
  sdk_fee = λ i cents basis. none;
  sdk_subscription = λ i vendor cents. none;
  call_tool = λ i name args. none;
  rails = λ i name args. none;
  child_ends = λ i. true;
  path_exists = λ s. str_eq s "data";
  c1z_fixture = none;
  path_text = λ s. s;
  join_path = λ a b. b;
  resolve_path = λ s. s;
  is_absolute = λ s. false;
  read_tenant = λ path. some desk_tenant;
  check_access = λ i path principals agent scopes action uri. none;
  csv_rows = λ path. if str_eq path "bank.csv" then some bank_rows else none;
  xlsx_rows = λ path. none;
  glob = λ folder pattern. if str_eq pattern "*.csv" then "bank.csv" ∷ [] else [];
  path_match = λ path pattern. some true;
  path_name = λ path. path;
  path_stem = λ path. path;
  path_suffix = λ path. ".csv";
  strptime = λ format s. if str_eq format "%Y-%m-%d" then some s else none;
  days_between = λ a b. 30;
  month_days = λ year month. 30;
  year_of = λ i. 2026;
  padded = λ width n. "01";
  matches = λ pattern s. false;
  search_group = λ pattern s. none;
  substitute = λ pattern new s. s;
  show_percents = λ n x. "1.0%";
  format = λ text x. some text;
  has_plaid = true;
  transactions_sync =
      λ i token cursor. if str_eq cursor "end" then none else some ([], "end", false);
  can_write = λ i path. true;
  has_baton = false;
  baton_access = λ i path connector. none;
  read_json = λ path. none;
  iso_day = λ s. some s;
  days_before = λ n day. day;
  neg = λ x. x;
}

pub desk-IsLawful : IsLawful
desk-IsLawful = record { load-dump = λ d. refl; dump_visible = λ d. refl; count-sha256 = λ s. refl }
