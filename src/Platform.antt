-- ===== src/Platform.antt =====
-- What the program uses and does not implement: Python's floats, the clock, the environment, and
-- the standard library's hashing and JSON, over abstract types of floats and of text lines.
pub mod Values
use nemoclaw_smb.Base.{ℕ, ◌≡◌, refl, ◌⊎◌, inl, inr, String, Bool, false, Option, List}
use nemoclaw_smb.Base.Dict.{Dict}
use nemoclaw_smb.Json.{Value}
use Prim.Native.String.{count}

-- One reading of the clock: the ISO text, the local day `YYYYMMDD`, and the seconds.
pub record Moment : Type 0 where
  pub iso : String
  pub day : String
  pub secs : ℕ

-- What `json.loads` gives for a line: an object, another value, or a `JSONDecodeError`.
pub data Loaded (F : Type 0) : Type 0 where
  malformed not_object : Loaded F
  entry : Dict (Value F) → Loaded F

pub Loaded-cases :
    {F : Type 0} (l : Loaded F)
    → (l ≡ malformed) ⊎ (l ≡ not_object) ⊎ ((e : Dict (Value F)) × (l ≡ entry e))
Loaded-cases malformed = inl refl
Loaded-cases not_object = inr (inl refl)
Loaded-cases (entry e) = inr (inr (e, refl))

-- What an HTTP service answers: the status, and the body where it is a JSON object.
pub record Response (F : Type 0) : Type 0 where
  pub status_code : ℕ
  pub json : Option (Dict (Value F))

-- A parsed policy file; a key that the file lacks is `none`.
pub record PolicyFile (F : Type 0) : Type 0 where
  pub blocked_vendors : Option (List String)
  pub vendors : Option (Dict F)
  pub default_limit : Option F

-- A parsed tenant file; a key that the file lacks is `none`.
pub record TenantFile (F : Type 0) : Type 0 where
  pub data_root : Option String
  pub brain_path : Option String
  pub audit_path : Option String
  pub llm_routing : Option String
  pub sensitivity : Option String
  pub mode : Option String
  pub local_model : Option String
  pub thresholds : Option (Dict (Value F))
  pub ingestion : Option (Dict (Value F))

-- What the Stripe services answer; MCP may leave either part out.
pub record Reply : Type 0 where
  pub reply_id : Option String
  pub reply_status : Option String

-- What the authority-runtime package reads in an envelope: the signed scopes and resources, and its
-- answer on a public key, `none` where it raises.
pub record Authority : Type 0 where
  pub scopes : List String
  pub resources : List String
  pub verifies : String → Option Bool

-- A transaction of Plaid, as far as it is read; an attribute that it lacks is `none`, and a date is the
-- text of its ISO form. The category of personal finance may lack its `primary`.
pub record PlaidTransaction (F : Type 0) : Type 0 where
  pub amount : F
  pub date : Option String
  pub authorized_date : Option String
  pub merchant_name : Option String
  pub name : Option String
  pub personal_finance_category : Option (Option String)
  pub category : List String
  pub transaction_id : String

pub record Platform : Type 1 where
  pub Float : Type 0
  pub of_ℕ : ℕ → Float
  pub lt : Float → Float → Bool
  pub le : Float → Float → Bool
  pub add : Float → Float → Float
  pub sub : Float → Float → Float
  pub mul : Float → Float → Float
  pub div : Float → Float → Float
  -- `int(x)` of a float that is not negative, and `round(x, n)`
  pub trunc : Float → ℕ
  pub round_to : ℕ → Float → Float
  -- `statistics.mean` and `statistics.pstdev` of a list that is not empty, `statistics.stdev` of one
  -- with two elements at least
  pub mean : List Float → Float
  pub pstdev : List Float → Float
  pub stdev : List Float → Float
  -- `abs(x)`
  pub abs : Float → Float
  -- `int(text)`, `float(text)`, and the text of a float in an f-string: plain, and with so
  -- many decimals
  pub parse_int : String → Option ℕ
  pub parse_float : String → Option Float
  pub show_float : Float → String
  pub show_fixed : ℕ → Float → String
  pub show_int : ℕ → String
  -- `str.lower` and `str.strip`
  pub lower : String → String
  pub strip : String → String
  -- `str.upper` and `str.title`, and the texts of lists of texts and of floats in an f-string
  pub upper : String → String
  pub title : String → String
  pub show_texts : List String → String
  pub show_floats : List Float → String
  -- `text.split()`
  pub split : String → List String
  -- `hashlib.sha256(text.encode()).hexdigest()`, and the canonical and the written JSON text
  pub sha256 : String → String
  pub canonical : Dict (Value Float) → String
  -- `json.dumps(value, sort_keys=True)`, and `repr` of a text
  pub dumps : Value Float → String
  pub repr : String → String
  -- `json.dumps(value, sort_keys=True, separators=(",", ":"))`, and `str(value)`
  pub compact : Value Float → String
  pub str_value : Value Float → String
  -- Ed25519 keys as pairs of hex texts, private and public: the one of a base64 text, `none` where
  -- that is no key, and a new one; the signature of a text, and whether a public key accepts it.
  pub key_of_b64 : String → Option (String × String)
  pub generate_key : ℕ → String × String
  pub ed25519_sign : String → String → String
  pub ed25519_verify : String → String → String → Bool
  -- The authority-runtime package: whether it is there, a new pair of keys, the fields of an envelope
  -- for an agent, scopes, a private key, a skill, resources and a policy, and reading an envelope.
  -- `none` is an exception.
  pub has_authority_runtime : Bool
  pub generate_key_pair : ℕ → Option (String × String)
  pub create_simple_envelope :
      ℕ
      → String
      → List String
      → String
      → String
      → List String
      → String
      → Option (Dict (Value Float))
  pub model_validate : Dict (Value Float) → Option Authority
  -- A line of a text file without its newline: its bytes, the text of its last bytes, its parts
  -- under `splitlines`, and whether it is empty after `strip`.
  pub Line : Type 0
  pub dump : Dict (Value Float) → Line
  pub load : Line → Loaded Float
  pub size : Line → ℕ
  pub clip : ℕ → Line → Line
  pub pieces : Line → List Line
  pub is_blank : Line → Bool
  -- The text of a float in percent without decimals (`:.0%`), the answer of the Nemotron client to a
  -- prompt, which never raises, and the milliseconds that it took.
  pub show_percent : Float → String
  pub call_nemotron : ℕ → String → String
  pub latency_ms : ℕ → Float
  -- `(datetime.fromisoformat(a) - datetime.fromisoformat(b)).total_seconds()`, and `list(set(texts))`
  pub total_seconds : String → String → Float
  pub list_of_set : List String → List String
  -- the clock at each of its readings, and `os.environ`
  pub clock : ℕ → Moment
  pub getenv : String → Option String
  -- `yaml.safe_load` of the policy file at a path, `none` where it cannot be read
  pub read_policy : String → Option (PolicyFile Float)
  -- Services, whose answers may differ at each reading of the clock; `none` is an exception.
  pub http : ℕ → String → Option (Response Float)
  pub client_assertion : ℕ → String → String → String → Option String
  pub has_npx : Bool
  pub has_stripe_sdk : Bool
  pub mcp_payment : ℕ → ℕ → Dict (Value Float) → Option Reply
  pub sdk_payment : ℕ → ℕ → String → Option Reply
  pub sdk_fee : ℕ → ℕ → String → Option Reply
  -- the four calls of the SDK for a subscription, of a vendor at a price in cents; and the answer of a
  -- tool of the Stripe MCP server to its arguments, `none` for a `StripeMcpError`
  pub sdk_subscription : ℕ → String → ℕ → Option Reply
  pub call_tool : ℕ → String → Dict (Value Float) → Option (Value Float)
  -- The answer of NeMo Guardrails on a skill and its arguments, and whether a child process that runs
  -- a skill ends in time with JSON on its output.
  pub rails : ℕ → String → Dict (Value Float) → Option String
  pub child_ends : ℕ → Bool
  -- Whether a path exists, where the bundled entitlement graph is, and the decision of the Baton
  -- backend on it: for a principal map, an agent with its scopes, an action and an address.
  pub path_exists : String → Bool
  pub c1z_fixture : Option String
  -- `str(Path(text))`, `str(Path(a) / b)`, `str(Path(text).resolve())`, whether a path is absolute, and
  -- the tenant file at a path, `none` where there is none
  pub path_text : String → String
  pub join_path : String → String → String
  pub resolve_path : String → String
  pub is_absolute : String → Bool
  pub read_tenant : String → Option (TenantFile Float)
  pub check_access :
      ℕ → String → Dict String → String → List String → String → String → Option (Bool × String)
  -- The rows of a file under `csv.reader`, the texts of the cells of a workbook's rows, `none` where
  -- the file cannot be read, and the sorted paths of a folder that match a pattern.
  pub csv_rows : String → Option (List (List String))
  pub xlsx_rows : String → Option (List (List (Option String)))
  pub glob : String → String → List String
  -- `Path(a).match(b)`, where `none` is a `ValueError`, and the `name`, `stem` and `suffix` of a path
  pub path_match : String → String → Option Bool
  pub path_name : String → String
  pub path_stem : String → String
  pub path_suffix : String → String
  -- The ISO day of a text under a format, where `none` is a `ValueError`; the days from one ISO day to a
  -- later one and those of a month; the year of a reading of the clock; a number with leading zeros.
  pub strptime : String → String → Option String
  pub days_between : String → String → Float
  pub month_days : ℕ → ℕ → ℕ
  pub year_of : ℕ → ℕ
  pub padded : ℕ → ℕ → String
  -- `bool(re.search(pattern, text))`, the first group of the match, and `re.sub(pattern, new, text)`
  pub matches : String → String → Bool
  pub search_group : String → String → Option String
  pub substitute : String → String → String → String
  -- The text of a float in percent with so many decimals.
  pub show_percents : ℕ → Float → String
  -- `text.format(x)`, `none` for an exception
  pub format : String → Float → Option String
  -- One page of Plaid's transactions for an access token from a cursor on: the transactions, the next
  -- cursor, and whether there is more; `none` for an exception.
  pub has_plaid : Bool
  pub transactions_sync :
      ℕ → String → String → Option (List (PlaidTransaction Float) × String × Bool)
  -- whether a file can be written
  pub can_write : ℕ → String → Bool
  -- The baton program: whether it is there, and the JSON value of its output for a c1z file and a
  -- connector, `none` where it fails or prints something else; a JSON file, `none` where it cannot be
  -- read; the ISO day of an ISO text, `none` for a `ValueError`; the day so many days before a day.
  pub has_baton : Bool
  pub baton_access : ℕ → String → Option String → Option (Value Float)
  pub read_json : String → Option (Value Float)
  pub iso_day : String → Option String
  pub days_before : ℕ → String → String
  -- `-x`
  pub neg : Float → Float

-- What the logs rely on: `json.loads` reads back what `json.dumps` wrote, which is never blank, and
-- a digest has 64 characters.
pub record IsLawful ⦃p : Platform⦄ : Type 0 where
  pub load-dump : (d : Dict (Value p.Float)) → p.load (p.dump d) ≡ entry d
  pub dump_visible : (d : Dict (Value p.Float)) → p.is_blank (p.dump d) ≡ false
  pub count-sha256 : (s : String) → count (p.sha256 s) ≡ 64
