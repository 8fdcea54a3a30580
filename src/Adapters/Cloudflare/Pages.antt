-- ===== src/Adapters/Cloudflare/Pages.antt =====
-- A listing of several pages is read as a whole.
use cf_docker_tunnel_sync.Base.{
  ℕ, zero, suc, ◌-◌, String, true, ◌≡◌, refl, sym, ap, ◌∙◌, Option, some, List, [], ◌++◌,
}
use mathlib.Core.List.{append-nil, append_assoc}
use cf_docker_tunnel_sync.Base.Json.{Json}
use cf_docker_tunnel_sync.Domain.Models.{or_default}
use cf_docker_tunnel_sync.Adapters.Cloudflare.{
  Body, dict, items, PageInfo, Result, ok, Client, Session, execute_single, extend, pages,
  results_of, with_results, all_pages, paginated, request,
}

-- The pages after `page`, one after another.
pub gather : (ℕ → List Json) → ℕ → ℕ → List Json
gather content page zero = []
gather content page (suc left) = content (suc page) ++ gather content (suc page) left

module _ (client : Client) (limit : ℕ) (url : String) (url_of : ℕ → String)
    (content : ℕ → List Json) where
  -- A page answers with a list of results, with or without information on the pages.
  pub record Page (xs : List Json) (b : Result Body) : Type 0 where
    pub info : Option PageInfo
    pub listed : b ≡ ok (dict info (items xs))

  -- Each page of the listing answers with its content, in any state.
  abbrev pub AnswersPages : Type 0
  AnswersPages =
      (k : ℕ) (s : Session client.World)
      → Page (content k) (execute_single client limit (url_of k) s).1

  module _ (answers : AnswersPages) where
    extend-items :
        (acc xs : List Json)
        (more : List Json → Session client.World → Session client.World × Result (List Json))
        (r : Session client.World × Result Body)
        → Page xs r.1
        → extend client acc more r ≡ more (acc ++ xs) r.0
    unfolding extend
    extend-items acc xs more (s, b) page = rw page.listed refl

    pages-gather :
        (page left : ℕ) (acc : List Json) (s : Session client.World)
        → (pages client limit url_of left page acc s).1 ≡ ok (acc ++ gather content page left)
    unfolding pages gather
    pages-gather page zero acc s = ap ok (sym (append-nil acc))
    pages-gather page (suc left) acc s =
        let r = execute_single client limit (url_of (suc page)) s in
        ap (λ (q : Session client.World × Result (List Json)). q.1)
          (extend-items acc (content (suc page)) (pages client limit url_of left (suc page)) r
            (answers (suc page) s))
        ∙ pages-gather (suc page) left (acc ++ content (suc page)) r.0
        ∙ ap ok (append_assoc acc (content (suc page)) (gather content (suc page) left))

    -- If the first answer is a page of a listing with a list of results, and the request of each
    -- page by its number succeeds in any state with a list of results that depends on the number
    -- only, with whatever information on the pages, then the request gives the results of the first page and of all the
    -- pages after it, in order.
    pub request-gather :
        (info : PageInfo) (xs : List Json) (s : Session client.World)
        → (execute_single client limit url s).1 ≡ ok (dict (some info) (items xs))
        → (request client limit true url url_of s).1
          ≡ ok (
              dict (some info) (
                items (
                  xs
                  ++ gather content
                      (or_default info.page 1)
                      (or_default info.total_pages 1 - or_default info.page 1))))
    unfolding request with_results paginated all_pages results_of
    request-gather info xs s e = listing (execute_single client limit url s) e
      where
        wrap :
            (r : Session client.World × Result (List Json)) (ys : List Json)
            → r.1 ≡ ok ys
            → (with_results client (some info) r).1 ≡ ok (dict (some info) (items ys))
        wrap (t, b) ys h = rw h refl

        listing :
            (r : Session client.World × Result Body)
            → r.1 ≡ ok (dict (some info) (items xs))
            → (paginated client limit url_of r).1
              ≡ ok (
                  dict (some info) (
                    items (
                      xs
                      ++ gather content
                          (or_default info.page 1)
                          (or_default info.total_pages 1 - or_default info.page 1))))
        listing (t, b) h = rw h (wrap _ _ (pages-gather _ _ xs t))
