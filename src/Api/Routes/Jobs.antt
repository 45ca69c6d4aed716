-- ===== src/Api/Routes/Jobs.antt =====
-- app/api/firecrawl_v2_compat.py: the routes of crawls, batches, agents, browsers and extracts.
use fcam_gateway.Prelude.{ℕ, ◌++◌, none, some, List}
use fcam_gateway.Prelude.Text.{codes}
use fcam_gateway.Api.Pipeline.{
  Inbound, get, post, delete, Plan, forwards, looks_up, creates, begins,
}
use fcam_gateway.Api.Routes.Paths.{with_query, path_and_query, target}

abbrev pub crawl : Inbound → Plan
crawl x =
    begins (codes "crawl") (some (codes "crawl")) (
      target post (with_query x (codes "/v2/crawl"))
        (some (with_query x (codes "/v2/crawl/start"))))

abbrev pub crawl_start : Inbound → Plan
crawl_start x =
    begins (codes "crawl") (some (codes "crawl")) (
      target post (with_query x (codes "/v2/crawl"))
        (some (with_query x (codes "/v2/crawl/start"))))

abbrev pub crawl_active : Inbound → Plan
crawl_active x = forwards (target get (with_query x (codes "/v2/crawl/active")) none)

abbrev pub crawl_params_preview : Inbound → Plan
crawl_params_preview x =
    forwards (target post (with_query x (codes "/v2/crawl/params-preview")) none)

abbrev pub crawl_status : Inbound → List ℕ → Plan
crawl_status x job_id = looks_up (codes "crawl") job_id (
    target get (with_query x (codes "/v2/crawl/" ++ job_id))
      (some (with_query x (codes "/v2/crawl/status/" ++ job_id))))

abbrev pub crawl_status_alias : Inbound → List ℕ → Plan
crawl_status_alias x job_id = looks_up (codes "crawl") job_id (
    target get (with_query x (codes "/v2/crawl/" ++ job_id))
      (some (with_query x (codes "/v2/crawl/status/" ++ job_id))))

abbrev pub agent : Inbound → Plan
agent x = begins (codes "agent") (some (codes "agent")) (target post (path_and_query x) none)

abbrev pub batch_scrape : Inbound → Plan
batch_scrape x = creates (codes "batch_scrape") (
    target post (with_query x (codes "/v2/batch/scrape"))
      (some (with_query x (codes "/v2/batch/scrape/start"))))

abbrev pub batch_scrape_start : Inbound → Plan
batch_scrape_start x = creates (codes "batch_scrape") (
    target post (with_query x (codes "/v2/batch/scrape"))
      (some (with_query x (codes "/v2/batch/scrape/start"))))

abbrev pub batch_scrape_status : Inbound → List ℕ → Plan
batch_scrape_status x job_id = looks_up (codes "batch_scrape") job_id (
    target get (with_query x (codes "/v2/batch/scrape/" ++ job_id))
      (some (with_query x (codes "/v2/batch/scrape/status/" ++ job_id))))

abbrev pub batch_scrape_status_alias : Inbound → List ℕ → Plan
batch_scrape_status_alias x job_id = looks_up (codes "batch_scrape") job_id (
    target get (with_query x (codes "/v2/batch/scrape/" ++ job_id))
      (some (with_query x (codes "/v2/batch/scrape/status/" ++ job_id))))

abbrev pub crawl_delete : Inbound → List ℕ → Plan
crawl_delete x job_id =
    looks_up (codes "crawl") job_id
      (target delete (with_query x (codes "/v2/crawl/" ++ job_id)) none)

abbrev pub crawl_errors : Inbound → List ℕ → Plan
crawl_errors x job_id =
    looks_up (codes "crawl") job_id
      (target get (with_query x (codes "/v2/crawl/" ++ job_id ++ codes "/errors")) none)

abbrev pub batch_scrape_errors : Inbound → List ℕ → Plan
batch_scrape_errors x job_id =
    looks_up (codes "batch_scrape") job_id
      (target get (with_query x (codes "/v2/batch/scrape/" ++ job_id ++ codes "/errors")) none)

abbrev pub batch_scrape_delete : Inbound → List ℕ → Plan
batch_scrape_delete x job_id =
    looks_up (codes "batch_scrape") job_id
      (target delete (with_query x (codes "/v2/batch/scrape/" ++ job_id)) none)

abbrev pub agent_status : Inbound → List ℕ → Plan
agent_status x job_id =
    looks_up (codes "agent") job_id (target get (with_query x (codes "/v2/agent/" ++ job_id)) none)

abbrev pub agent_delete : Inbound → List ℕ → Plan
agent_delete x job_id =
    looks_up (codes "agent") job_id
      (target delete (with_query x (codes "/v2/agent/" ++ job_id)) none)

abbrev pub browser_create : Inbound → Plan
browser_create x = creates (codes "browser") (target post (with_query x (codes "/v2/browser")) none)

abbrev pub browser_list : Inbound → Plan
browser_list x = forwards (target get (with_query x (codes "/v2/browser")) none)

abbrev pub browser_execute : Inbound → List ℕ → Plan
browser_execute x session_id =
    looks_up (codes "browser") session_id
      (target post (with_query x (codes "/v2/browser/" ++ session_id ++ codes "/execute")) none)

abbrev pub browser_delete : Inbound → List ℕ → Plan
browser_delete x session_id =
    looks_up (codes "browser") session_id
      (target delete (with_query x (codes "/v2/browser/" ++ session_id)) none)

abbrev pub extract : Inbound → Plan
extract x = creates (codes "extract") (target post (with_query x (codes "/v2/extract")) none)

abbrev pub extract_status : Inbound → List ℕ → Plan
extract_status x job_id =
    looks_up (codes "extract") job_id
      (target get (with_query x (codes "/v2/extract/" ++ job_id)) none)
