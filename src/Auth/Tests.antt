-- ===== src/Auth/Tests.antt =====
-- Runs of the accounts and of authorization, and their theorems at concrete inputs. Names are
-- compared as they stand, and the persistence is a pair in memory.
use gantry_core.Base.{◌≡◌, refl, sym, ap, true, false, String, none, some, List, [], ◌∷◌, ℕ}
use gantry_core.Base.Int.{pos}
use gantry_core.Base.Text.{trim_space}
use gantry_core.Base.Sort.{sort_by}
use gantry_core.Base.Result.{Result, ok, err, Holds}
use gantry_core.Auth.Accounts.{
  Identity, Account, AccountsFile, RolesFile, AccountPolicy, Error, administrator,
  validate_accounts,
}
use gantry_core.Auth.Accounts.Valid.{Valid, validate_accounts-Valid, some_admin}
use gantry_core.Auth.Capabilities.{effective_capabilities, has_capability, dedupe_strings}
use gantry_core.Auth.Capabilities.Laws.{has_capability-effective_capabilities}
use gantry_core.Auth.Edits.Recovery.{count_codes}
use gantry_core.Auth.Model.{Persistence, IsDurable, Model, new_model, delete_account}
use gantry_core.Auth.Model.Identities.{consume_recovery_code}
use gantry_core.Auth.Model.Administered.{Step, Steps, Steps-administered}
use gantry_core.Auth.Model.Consume.{Consumes, consume_recovery_code-Consumes}
use gantry_core.Auth.Execution.{Actor, Authorization, authorize, contains_any, validate_execution}
use gantry_core.Auth.Execution.Permitted.{succeeds, authorize-permitted}
use gantry_core.Auth.Policy.{validate_provider_grants}
use gantry_core.Auth.Queries.{authenticate_password}

abbrev pub same : String → String
same s = s

abbrev password : String → String → List String → Identity
password id name codes = record {
  id = id;
  type = "password";
  username = name;
  email = "";
  provider_subject = "";
  password_hash = "hash";
  totp_enabled = false;
  recovery_code_hashes = codes;
  enabled = true;
}

abbrev ann : Account
ann = record {
  id = "1";
  display_name = "Ann";
  enabled = true;
  roles = administrator ∷ [];
  identities = password "a" "ann" ("code" ∷ []) ∷ [];
  created_at = 0;
}

abbrev bob : Account
bob = record {
  id = "2";
  display_name = "Bob";
  enabled = true;
  roles = "reader" ∷ [];
  identities = password "b" "bob" [] ∷ [];
  created_at = 0;
}

abbrev roles : RolesFile
roles = record {
  version = pos 1;
  roles =
      record {
        id = administrator;
        name = "Administrator";
        capabilities = "*" ∷ [];
        built_in = true;
      }
      ∷ record { id = "reader"; name = "Reader"; capabilities = "read" ∷ []; built_in = false }
      ∷ [];
}

abbrev pub users : AccountsFile
users = record { version = pos 1; accounts = ann ∷ bob ∷ [] }

abbrev policy : AccountPolicy
policy = record { schema_version = pos 1; product_name = "Watchpost"; known_capability = none }

abbrev pub memory : Persistence
memory = record {
  Medium = AccountsFile × RolesFile;
  load_accounts = λ (f, g). ok f;
  load_roles = λ (f, g). ok g;
  save_accounts = λ f (old, g). ((f, g), ok tt);
  save_roles = λ g (f, old). ((f, g), ok tt);
}

never : {A : Type 0} {e : Error} (r : Result Error (Unit {0})) → r ≡ ok tt → r ≡ err e → A
never r h g = cc

memory-IsDurable : IsDurable memory
memory-IsDurable = record {
  saved_accounts = λ f m m' h. (ap (λ p. ok p.0.0) (sym h), ap (λ p. ok p.0.1) (sym h));
  saved_roles = λ g m m' h. (ap (λ p. ok p.0.1) (sym h), ap (λ p. ok p.0.0) (sym h));
  failed_accounts = λ f m m' e h. never (ok tt) refl (ap (λ p. p.1) h);
  failed_roles = λ g m m' e h. never (ok tt) refl (ap (λ p. p.1) h);
}

abbrev pub opened : Model memory
opened = record { store = (users, roles); policy = policy; users = users; roles = roles }

-- What the runs compute with.
unfoldable pub accounts_open : ℕ
unfolding new_model delete_account consume_recovery_code trim_space effective_capabilities
    has_capability dedupe_strings validate_accounts contains_any authorize validate_execution
    validate_provider_grants authenticate_password sort_by
accounts_open = 0

opened-new_model : new_model same memory (users, roles) policy ≡ ok opened
unfolding accounts_open
opened-new_model = refl

-- Ann, the only administrator, cannot be deleted; her recovery code works once.
abbrev some_steps :
    Steps same memory opened
      (delete_account same memory "1" (consume_recovery_code same memory "1" "a" "code" opened).0).0
some_steps =
    Steps.next (Steps.next Steps.here (Step.code_consumed "1" "a" "code")) (Step.deleted "1")

Steps-administered_example :
    let last =
      (delete_account same memory "1"
        (consume_recovery_code same memory "1" "a" "code" opened).0).0 in
    Valid same last.users last.roles last.policy
    × (memory.load_accounts last.store ≡ ok last.users)
    × (memory.load_roles last.store ≡ ok last.roles)
    × (some_admin last.users.accounts ≡ true)
Steps-administered_example =
    Steps-administered same memory memory-IsDurable (users, roles) policy opened
      (delete_account same memory "1" (consume_recovery_code same memory "1" "a" "code" opened).0).0
      opened-new_model refl some_steps

validate_accounts-Valid_example :
    Holds (λ _. Valid same users roles policy) (validate_accounts same users roles policy)
validate_accounts-Valid_example = validate_accounts-Valid same users roles policy

has_capability-effective_capabilities_example :
    has_capability (effective_capabilities bob roles.roles) "read" ≡ true
unfolding accounts_open
has_capability-effective_capabilities_example =
    has_capability-effective_capabilities bob roles.roles "read"

consume_recovery_code-Consumes_example :
    Consumes same memory
      (count_codes "1" "a" "code")
      opened
      (consume_recovery_code same memory "1" "a" "code" opened)
consume_recovery_code-Consumes_example =
    consume_recovery_code-Consumes same memory "1" "a" "code" opened

abbrev token : Actor
token = record {
  kind = "api-token";
  project = "p";
  installation = "i";
  subject = "t";
  account_id = "";
  capabilities = [];
  token_scopes = "write" ∷ [];
}

abbrev needs_write : Authorization
needs_write = record {
  boundary = "capability";
  capability = "edit";
  token_scopes = "read" ∷ "write" ∷ [];
}

authorize-permitted_example : succeeds (authorize needs_write (some token)) ≡ true
unfolding accounts_open
authorize-permitted_example = authorize-permitted needs_write (some token)
