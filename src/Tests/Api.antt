-- ===== src/Tests/Api.antt =====
-- The router and the authentication at concrete inputs. A key is a number, and a token of the
-- library below is the text of its algorithm.
use p_r_i_s_m.Prelude.{
  ◌+◌, ℕ, ◌≤◌, ◌≡◌, ◌≢◌, refl, List, [], ◌∷◌, Option, none, some, String, Eq-String, ◌==◌, true,
  false, ◌⊎◌, arith, if◌then◌else◌,
}
use p_r_i_s_m.Text.{Text, Eq-Text, codes, text_eq, ends_with}
use p_r_i_s_m.Dict.{lookup, assign, evict}
use p_r_i_s_m.Worker.Executor
use p_r_i_s_m.Worker.Executor.{Executor}
use p_r_i_s_m.Worker.Store.{JobRecord, done}
use p_r_i_s_m.Worker.Runner
use p_r_i_s_m.Worker.Runner.{CheckRunner}
use p_r_i_s_m.Worker.Runner.Request.{CheckRequest}
use p_r_i_s_m.Worker.Usage.Memory
use p_r_i_s_m.App.Auth.{
  alg_of, Principal, Header, Jwk, Claims, claims, invalid, Jwt, Verifier, current_principal,
  signed_in, anonymous,
}
use p_r_i_s_m.App.Auth.Verified.{IsAccepted, current_principal-IsAccepted}
use p_r_i_s_m.App.Check.Uploads.{label_of, Settings, Form, pass}
use p_r_i_s_m.App.Check.{
  App, Moment, job, check_status, reply, usable, owner_of, submit_check, accepted, admit,
  find_previous,
}
use p_r_i_s_m.App.Check.Ownership.{check_status-IsOwn}
use p_r_i_s_m.App.Check.Sizes.{IsWithin}
use p_r_i_s_m.App.Check.Accepted.{submit_check-IsWithin}
use p_r_i_s_m.App.Check.Quota.{
  Call, ComeInOrder, end_of, since_of, accepted_since, answers, submit_all_quota,
}

abbrev ada : Principal
ada = record { user_id = "ada"; email = none }

abbrev jwt : Jwt ℕ
jwt = record {
  header_of =
      λ token. if token == codes "RS" then some (record { alg = "RS256"; kid = none }) else none;
  decode_shared = λ now options token secret alg. invalid;
  decode_signed = λ now options token key alg. claims (record { sub = some "ada"; email = none });
  is_known = λ alg. true;
  from_jwk = λ alg jwk. some 3;
}

abbrev verifier : Verifier ℕ
verifier = record {
  secret = "";
  jwks_url = "https://keys";
  options = record { leeway = 30; audience = "authenticated"; issuer = "" };
  jwks_ttl = 3600;
  keys = [];
  keys_fetched_at = 0;
}

abbrev key_set : Option (List Jwk)
key_set = some (record { alg = some "RS256"; kty = none; kid = some "k1" } ∷ [])

-- the key set is requested, and its only key is used
is_ada : (current_principal jwt 9 key_set none true (some (codes "RS")) verifier).1 ≡ signed_in ada
unfolding current_principal text_eq assign alg_of lookup
is_ada = refl

current_principal-IsAccepted_example :
    ((p : Principal)
      → (current_principal jwt 9 key_set none true (some (codes "RS")) verifier).1 ≡ signed_in p
      → (token : Text) × (header : Header) × (c : Claims) × (some (codes "RS") ≡ some token)
        × (jwt.header_of token ≡ some header)
        × IsAccepted jwt 9 key_set none verifier token header c
        × (c.sub ≡ some p.user_id)
        × (p.user_id ≢ ""))
    × ((current_principal jwt 9 key_set none true (some (codes "RS")) verifier).1 ≡ anonymous
        → (some (codes "RS") ≡ none) × (true ≡ false))
current_principal-IsAccepted_example =
    current_principal-IsAccepted jwt 9 key_set none true (some (codes "RS")) verifier

abbrev settings : Settings
settings = record {
  max_file_bytes = 4;
  max_request_bytes = 6;
  max_reference_files = 2;
  academic_enabled = false;
  quota_checks = 1;
  quota_window_seconds = 60;
}

abbrev lower : Text → Text
lower text = text

abbrev of_ada : JobRecord ℕ
of_ada = record {
  id = "x";
  status = done;
  created = 0;
  updated = 0;
  result = some 7;
  message = none;
  owner = some "ada";
}

abbrev app : App ℕ
app = record {
  rate_limiter = record { limit = 5; window = 60; buckets = [] };
  usage = [];
  runner = record {
    store = record { max_jobs = 200; ttl = 1800; jobs = ("x", of_ada) ∷ [] };
    executor = Executor.new 2 16;
    cache = record { max_size = 8; ttl = 600; entries = [] };
  };
}

-- somebody who is not signed in asks for Ada's job
check_status-IsOwn_example :
    ((rec : JobRecord ℕ) (owner : String)
      → (Runner.status 5 "x" app.runner).1 ≡ some rec
      → rec.owner ≡ some owner
      → owner_of none ≢ some owner
      → ((check_status 5 none "x" app).1 ≡ reply none none)
        × (usable none (Runner.status 5 "x" app.runner).1 ≡ usable {R = ℕ} none none))
    × ((shown : JobRecord ℕ)
        → (check_status 5 none "x" app).1 ≡ job shown.id shown.status shown.result shown.message
        → (rec : JobRecord ℕ) × ((Runner.status 5 "x" app.runner).1 ≡ some rec)
          × ((rec.owner ≡ none) ⊎ (rec.owner ≡ owner_of none))
          × (rec.status ≡ shown.status)
          × (rec.result ≡ shown.result))
check_status-IsOwn_example = check_status-IsOwn 5 none "x" app

abbrev form : Form
form = record {
  file = record { filename = codes "a.txt"; content_type = []; content = 65 ∷ 66 ∷ [] };
  references =
      record { filename = codes "b.txt"; content_type = []; content = 67 ∷ [] }
      ∷ record { filename = codes "c.exe"; content_type = []; content = 68 ∷ [] }
      ∷ [];
  use_academic = false;
  compare_to = some "x";
}

abbrev moment : Moment
moment = record {
  admitted_at = 1;
  compared_at = 2;
  created_at = 3;
  failed_at = 3;
  recorded_at = 4;
  fresh_id = "y";
  pool_accepts = true;
}

abbrev request : CheckRequest ℕ
request = record {
  paper = (codes "a.txt", 65 ∷ 66 ∷ []);
  references = (codes "b.txt", 67 ∷ []) ∷ [];
  use_academic = false;
  base_warnings = codes "Skipped 'c.exe': unsupported file type." ∷ [];
  previous = some 7;
  previous_job_id = some "x";
}

taken : (submit_check settings lower moment "ip" (some ada) form app).1 ≡ accepted "y" request
unfolding submit_check lookup text_eq assign evict Executor.new ends_with Memory.count label_of
taken = refl

submit_check-IsWithin_example :
    ((admit settings 1 "ip" (some ada) app).1 ≡ none)
    × ((find_previous 2 (some ada) (some "x") (admit settings 1 "ip" (some ada) app).0.runner).1
        ≡ pass (some 7))
    × IsWithin settings (65 ∷ 66 ∷ []) ((codes "b.txt", 67 ∷ []) ∷ [])
submit_check-IsWithin_example =
    submit_check-IsWithin settings lower moment "ip" (some ada) form app "y" request taken

abbrev calls : List Call
calls =
    record { moment = moment; key = "ip"; who = some ada; form = form }
    ∷ record {
      moment = record moment { admitted_at = 5; recorded_at = 9; fresh_id = "z" };
      key = "ip";
      who = some ada;
      form = form;
    }
    ∷ []

submit_all_quota_example :
    let since = since_of settings (end_of 0 calls) in
    Memory.count "ada" since app.usage
      + accepted_since "ada" since (answers settings lower calls app)
    ≤ 1
unfolding ComeInOrder Memory.count Memory.hits_of
submit_all_quota_example =
    submit_all_quota settings lower "ada" 0 calls app (omega arith)
      (omega arith, omega arith, (omega arith, omega arith, tt)) (omega arith)
