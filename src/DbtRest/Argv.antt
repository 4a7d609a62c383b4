-- ===== src/DbtRest/Argv.antt =====
-- services/dbt_rest/app/main.py: the command lines of dbt. A request's JSON is `Body`; an entry that is
-- missing or false in Python is `none`, `false` or `nothing`. White space is that of ASCII.
pub mod Paths
use Prim.Native.Char.{Char, code}
use data_ops_showcase.Prelude.{
  is_space, ◌++◌, false, ◌&&◌, [], not, ok, true, str_eq, if◌then◌else◌, err, ◌>>=◌, none, some,
  ◌∷◌, ◌<>◌, Result, String, List, Bool, Option, ℕ,
}

pub data HttpFault : Type 0 where
  http_error : ℕ → String → HttpFault

pub data ArgvFault : Type 0 where
  value_error : String → ArgvFault

abbrev pub target_path : String → String
target_path run_id = "target/runs/" <> run_id

unfoldable pub with_run_target_path : List String → String → Result ArgvFault (List String)
with_run_target_path [] run_id = err (value_error "argv must start with dbt")
with_run_target_path (first ∷ []) run_id =
    if str_eq first "dbt"
    then err (value_error "argv must include dbt subcommand")
    else err (value_error "argv must start with dbt")
with_run_target_path (first ∷ second ∷ []) run_id =
    if str_eq first "dbt"
    then ok ("dbt" ∷ second ∷ "--target-path" ∷ target_path run_id ∷ [])
    else err (value_error "argv must start with dbt")
with_run_target_path (first ∷ second ∷ third ∷ rest) run_id =
    if not (str_eq first "dbt")
    then err (value_error "argv must start with dbt")
    else if str_eq second "source" && str_eq third "freshness"
    then ok ("dbt" ∷ "source" ∷ "freshness" ∷ "--target-path" ∷ target_path run_id ∷ rest)
    else if str_eq second "docs" && str_eq third "generate"
    then ok ("dbt" ∷ "docs" ∷ "generate" ∷ "--target-path" ∷ target_path run_id ∷ rest)
    else ok ("dbt" ∷ second ∷ "--target-path" ∷ target_path run_id ∷ third ∷ rest)

-- s.strip()
unfoldable pub strip_left : String → String
strip_left String.[] = ""
strip_left (String.◌∷◌ c s) =
    let rest = strip_left s in if is_space (code c) then rest else String.◌∷◌ c s

unfoldable pub strip_right : String → String
strip_right String.[] = ""
strip_right (String.◌∷◌ c s) =
    let rest = strip_right s in
    if is_space (code c) && str_eq rest "" then "" else String.◌∷◌ c rest

abbrev pub strip : String → String
strip s = strip_right (strip_left s)

-- s.split(): the words between white space
abbrev pub push_char : Char → List String → List String
push_char c [] = String.◌∷◌ c "" ∷ []
push_char c (w ∷ ws) = String.◌∷◌ c w ∷ ws

unfoldable pub pieces : String → List String
pieces String.[] = "" ∷ []
pieces (String.◌∷◌ c s) =
    let rest = pieces s in if is_space (code c) then "" ∷ rest else push_char c rest

unfoldable pub words : List String → List String
words [] = []
words (w ∷ ws) = let rest = words ws in if str_eq w "" then rest else w ∷ rest

abbrev pub split : String → List String
split s = words (pieces s)

-- " ".join(...)
unfoldable pub join_spaces : List String → String
join_spaces [] = ""
join_spaces (w ∷ []) = w
join_spaces (w ∷ v ∷ ws) = w <> (" " <> join_spaces (v ∷ ws))

pub data Selectors : Type 0 where
  nothing : Selectors
  listed : String → List String → Selectors
  not_a_list : Selectors

pub data Vars : Type 0 where
  no_vars : Vars
  object : String → Vars  -- with its text by json.dumps
  not_an_object : Vars

pub record Body : Type 0 where
  pub target : Option String
  pub command : Option String
  pub selectors : Selectors
  pub fail_on_test_failure : Option Bool
  pub full_refresh : Bool
  pub defer : Bool
  pub vars : Vars
  pub job : Option String

abbrev pub text_of : Option String → String
text_of none = ""
text_of (some s) = s

abbrev pub fails_on_test : Body → Bool
fails_on_test b = elim b.fail_on_test_failure [ none ↦ true | some fails ↦ fails ]

abbrev pub flag_if : Bool → String → List String
flag_if true flag = flag ∷ []
flag_if false flag = []

abbrev pub target_of : Body → String
target_of b =
    let given = if str_eq (text_of b.target) "" then "dwh" else text_of b.target in
    if str_eq (strip given) "" then "dwh" else strip given

unfoldable pub argv_from_airflow_body : Body → Result HttpFault (List String)
argv_from_airflow_body b =
    let cmd = strip (text_of b.command) in
    if not (str_eq cmd "")
    then ok ("dbt" ∷ (split cmd ++ ("--target" ∷ target_of b ∷ [])))
    else elim b.selectors [
      | not_a_list ↦ err (http_error 400 "selectors must be a list")
      | nothing ↦ err (http_error 400 "non-empty selectors or command is required for POST /runs")
      | listed s ss ↦ ok (
          ("dbt" ∷ "build" ∷ "--select" ∷ join_spaces (s ∷ ss) ∷ "--target" ∷ target_of b ∷ [])
          ++ flag_if (not (fails_on_test b)) "--no-fail-fast")
    ]

abbrev pub web_selection : String → Body → Result HttpFault String
web_selection layer b = elim b.selectors [
  | not_a_list ↦ err (http_error 400 "selectors must be a list")
  | nothing ↦ ok ("tag:" <> layer)
  | listed s ss ↦ ok (join_spaces (s ∷ ss))
]

abbrev pub web_vars : Body → Result HttpFault (List String)
web_vars b = elim b.vars [
  | no_vars ↦ ok []
  | object text ↦ ok ("--vars" ∷ text ∷ [])
  | not_an_object ↦ err (http_error 400 "vars must be an object")
]

abbrev pub web_words : Body → String → List String → List String
web_words b selected vars =
    "--select"
    ∷ selected
    ∷ "--target"
    ∷ "dwh"
    ∷ (flag_if (not (fails_on_test b)) "--no-fail-fast"
        ++ (flag_if b.full_refresh "--full-refresh" ++ (flag_if b.defer "--defer" ++ vars)))

unfoldable pub argv_from_web_job : String → Body → Result HttpFault (List String)
argv_from_web_job layer b = do
  selected ← web_selection layer b
  vars ← web_vars b
  ok ("dbt" ∷ "build" ∷ web_words b selected vars)
