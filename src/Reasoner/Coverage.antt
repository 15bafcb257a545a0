-- ===== src/Reasoner/Coverage.antt =====
-- `build_coverage_reasoner` of src/gossipmemo/reasoners/coverage.py on the store of Coverage.
use gossip_memo.Base.{ℕ, suc, true, Option, some, List, map, take}
use gossip_memo.Base.Results.{Result, ok, ◌>>=◌}
use gossip_memo.People.{Memory}
use gossip_memo.Coverage.{CoverageRoot, CoverageEntry, CoverageTables, coverage_context}
use gossip_memo.Coverage.Audit.{CoverageAudit, apply_coverage_audit}
use gossip_memo.Coverage.Latest.{ids}
use gossip_memo.Reasoner.{Descriptor}

abbrev pub CoverageContext : Type 0
CoverageContext = CoverageRoot × List CoverageEntry × List Memory

-- `audit_coverage` is what `_audit_coverage` returns: the model's audit, with how many memories after
-- the first its request held, or what it raises, since a root whose entries do not fit the budget and
-- a provider that fails both raise. The first memory of the request may be a slice of the first of the
-- backlog, with that memory's id; of what was read only the ids are used.
-- `space` is the reasoner's space, `now` the time of the apply, `limit` the default 400.
unfoldable pub coverage_reasoner :
    {E : Type 0} (id_of : ℕ → ℕ) (inferred : ℕ) (roots : List ℕ) (space : ℕ) (limit : Option ℕ)
    (now : ℕ)
    → List Memory
    → (CoverageContext → Result E (CoverageAudit × ℕ))
    → Descriptor CoverageTables CoverageContext (CoverageAudit × List Memory) E
unfolding coverage_context apply_coverage_audit
coverage_reasoner id_of inferred roots space limit now memories audit_coverage = record {
  load_context = coverage_context inferred roots space limit memories;
  call = λ t context.
      audit_coverage context >>= λ answer. ok (some (answer.0, take (suc answer.1) context.2));
  apply = λ t context result.
      apply_coverage_audit id_of now space context.0.root context.0.source_watermark
        context.0.source_cursor_id result.0 (ids result.1)
        (map (λ (e : CoverageEntry). e.id) context.1) memories t;
  continue_when = λ context result applied. true;
}
