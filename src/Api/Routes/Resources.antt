-- ===== src/Api/Routes/Resources.antt =====
-- Which routes of app/api/firecrawl_v2_compat.py create a resource, and which act on one.
use fcam_gateway.Prelude.{ℕ, ◌≡◌, refl, some, List}
use fcam_gateway.Prelude.Text.{codes}
use fcam_gateway.Api.Pipeline.{Inbound, Target, Plan, looks_up, creates, begins}
use fcam_gateway.Api.Routes.Jobs

pub data Resource : Type 0 where
  a_crawl a_batch an_agent a_browser an_extract : Resource

-- the routes that create a resource
pub data Creator : Resource → Type 0 where
  crawl crawl_start : Creator a_crawl
  batch_scrape batch_scrape_start : Creator a_batch
  agent : Creator an_agent
  browser_create : Creator a_browser
  extract : Creator an_extract

-- the routes that act on a resource
pub data Follower : Resource → Type 0 where
  crawl_status crawl_status_alias crawl_delete crawl_errors : Follower a_crawl
  batch_status batch_status_alias batch_delete batch_errors : Follower a_batch
  agent_status agent_delete : Follower an_agent
  browser_execute browser_delete : Follower a_browser
  extract_status : Follower an_extract

abbrev pub creator_plan : {r : Resource} → Creator r → Inbound → Plan
creator_plan crawl x = Jobs.crawl x
creator_plan crawl_start x = Jobs.crawl_start x
creator_plan batch_scrape x = Jobs.batch_scrape x
creator_plan batch_scrape_start x = Jobs.batch_scrape_start x
creator_plan agent x = Jobs.agent x
creator_plan browser_create x = Jobs.browser_create x
creator_plan extract x = Jobs.extract x

abbrev pub follower_plan : {r : Resource} → Follower r → Inbound → List ℕ → Plan
follower_plan crawl_status x id = Jobs.crawl_status x id
follower_plan crawl_status_alias x id = Jobs.crawl_status_alias x id
follower_plan crawl_delete x id = Jobs.crawl_delete x id
follower_plan crawl_errors x id = Jobs.crawl_errors x id
follower_plan batch_status x id = Jobs.batch_scrape_status x id
follower_plan batch_status_alias x id = Jobs.batch_scrape_status_alias x id
follower_plan batch_delete x id = Jobs.batch_scrape_delete x id
follower_plan batch_errors x id = Jobs.batch_scrape_errors x id
follower_plan agent_status x id = Jobs.agent_status x id
follower_plan agent_delete x id = Jobs.agent_delete x id
follower_plan browser_execute x id = Jobs.browser_execute x id
follower_plan browser_delete x id = Jobs.browser_delete x id
follower_plan extract_status x id = Jobs.extract_status x id

-- the word under which a resource is bound
pub kind : Resource → List ℕ
kind a_crawl = codes "crawl"
kind a_batch = codes "batch_scrape"
kind an_agent = codes "agent"
kind a_browser = codes "browser"
kind an_extract = codes "extract"

-- a plan that binds what it creates under a word
pub data Makes (k : List ℕ) : Plan → Type 0 where
  plainly : (t : Target) → Makes k (creates k t)
  with_key : (endpoint : List ℕ) (t : Target) → Makes k (begins endpoint (some k) t)

pub creator-Makes : {r : Resource} (c : Creator r) (x : Inbound) → Makes (kind r) (creator_plan c x)
unfolding kind
creator-Makes crawl x = with_key _ _
creator-Makes crawl_start x = with_key _ _
creator-Makes batch_scrape x = plainly _
creator-Makes batch_scrape_start x = plainly _
creator-Makes agent x = with_key _ _
creator-Makes browser_create x = plainly _
creator-Makes extract x = plainly _

-- a plan that acts, by the key of the resource, at the provider "firecrawl"
pub data Asks (k id : List ℕ) : Plan → Type 0 where
  asks : (t : Target) → t.provider ≡ "firecrawl" → Asks k id (looks_up k id t)

pub follower-Asks :
    {r : Resource} (f : Follower r) (x : Inbound) (id : List ℕ)
    → Asks (kind r) id (follower_plan f x id)
unfolding kind
follower-Asks crawl_status x id = asks _ refl
follower-Asks crawl_status_alias x id = asks _ refl
follower-Asks crawl_delete x id = asks _ refl
follower-Asks crawl_errors x id = asks _ refl
follower-Asks batch_status x id = asks _ refl
follower-Asks batch_status_alias x id = asks _ refl
follower-Asks batch_delete x id = asks _ refl
follower-Asks batch_errors x id = asks _ refl
follower-Asks agent_status x id = asks _ refl
follower-Asks agent_delete x id = asks _ refl
follower-Asks browser_execute x id = asks _ refl
follower-Asks browser_delete x id = asks _ refl
follower-Asks extract_status x id = asks _ refl
