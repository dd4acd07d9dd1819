-- ===== src/Services/Rules/Requests.antt =====
-- Sequences of requests to the rule endpoints of backend/app/api/rules.py.
use compliance_pulse.Prelude.{
  ℕ, Text, Option, none, some, List, [], ◌∷◌, codes, not, text_eq, where_rows, All-where_rows,
}
use compliance_pulse.Models.Scanning.{Metadata, Rule}
use compliance_pulse.Session.World.{World}
use compliance_pulse.Session.Monad.{M, http, lift, or_raise, pure, modify, ◌>>=◌, ◌>>◌}
use compliance_pulse.Services.Rules.{
  Reply, deleted, rule_by_id, create_rule, update_rule, delete_rule,
}
use compliance_pulse.Services.Rules.Validity.{
  IsSoundRule, AreSound, create_rule-AreSound, update_rule-AreSound,
}

-- A request, with the organization of the page's context where one is created
pub data Request : Type 0 where
  create : Metadata → Option ℕ → Request
  update : Text → Metadata → Request
  delete : Text → Request

abbrev pub serve : Request → M Reply
serve (create form context) = create_rule form context
serve (update rule_id form) = update_rule rule_id form
serve (delete rule_id) = delete_rule rule_id

-- The session after requests that were served one after the other, whatever they answered
unfoldable pub serve_all : List Request → World → World
serve_all [] w = w
serve_all (r ∷ requests) w = serve_all requests (serve r w).1

abbrev remove_found : Text → Rule → M Reply
remove_found rule_id rule = do
  modify (λ w. record w { rules = where_rows (λ r. not (text_eq r.id rule.id)) w.rules })
  pure (deleted rule_id)

deleted-AreSound :
    (rule_id : Text) (found : Option Rule) (w : World)
    → AreSound w
    → AreSound
        ((lift (or_raise (http 404 (codes "Rule not found")) found) >>= remove_found rule_id) w).1
deleted-AreSound rule_id none w h = h
deleted-AreSound rule_id (some rule) w h =
    All-where_rows IsSoundRule (λ r. not (text_eq r.id rule.id)) w.rules h

serve-AreSound : (r : Request) (w : World) → AreSound w → AreSound (serve r w).1
unfolding delete_rule
serve-AreSound (create form context) w h = create_rule-AreSound form context w h
serve-AreSound (update rule_id form) w h = update_rule-AreSound rule_id form w h
serve-AreSound (delete rule_id) w h = deleted-AreSound rule_id (rule_by_id rule_id w) w h

-- Where every stored rule has an id, a benchmark, a title, a command and an allowed severity, so it is
-- after any requests to create, update or delete rules, whatever they hold and answer.
pub serve_all-AreSound :
    (requests : List Request) (w : World) → AreSound w → AreSound (serve_all requests w)
unfolding serve_all
serve_all-AreSound [] w h = h
serve_all-AreSound (r ∷ requests) w h =
    serve_all-AreSound requests (serve r w).1 (serve-AreSound r w h)
