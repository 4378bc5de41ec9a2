-- ===== src/Automation/Sent.antt =====
-- What a run sends, and what it leaves undone.
use gantry_core.Base.{◌≡◌, String, List, [], ◌∷◌, ◌++◌, All}
use Prim.Native.String.{◌++◌ as append_str}
use gantry_core.Base.Text.{trim_slashes}
use gantry_core.Base.Result.{Result}
use gantry_core.Contracts.{Contract}
use gantry_core.Automation.Run.{Options, Request, World, Prepared, Ran}
use gantry_core.Automation.Allowed.{Allowed}

-- A read of the session's information: at its path below an address, with one cookie and no body.
pub record IsRead (o : Options) (base : String) (r : Request) : Type 0 where
  pub by_get : r.method ≡ "GET"
  pub of_session : r.url ≡ append_str (trim_slashes base) o.session_info_path
  pub with_one_cookie : (value : String) × (r.cookies ≡ (o.cookie_name, value) ∷ [])
  pub without_body : r.body ≡ ""

abbrev pub Reads : Options → String → List Request → Type 0
Reads o base = All (IsRead o base)

-- More requests were sent, all of them reads.
record More (o : Options) (base : String) (before after : Ran) : Type 0 where
  more : List Request
  more_sent : after.requests ≡ before.requests ++ more
  more_read : Reads o base more

-- The requests of a run: none, or one that was allowed and then only reads.
pub data Sent (w : World) (o : Options) (contracts : List Contract) : List Request → Type 0 where
  nothing_sent : Sent w o contracts []
  allowed_sent :
      (p : Prepared) (reads : List Request)
      → Allowed w contracts p
      → Reads o p.base reads
      → Sent w o contracts (p.request ∷ reads)
