-- ===== src/Messages/Eligible.antt =====
-- Each entry of `pending_extractions` stands for a row, and an eligible batch for a row that can
-- still be tried (src/gossipmemo/store/_messages.py, src/gossipmemo/reasoners/extraction.py).
use gossip_memo.Base.{
  ℕ, suc, ◌<◌, Bool, true, false, not, some, List, [], ◌∷◌, ◌==◌, ltb, length, map, keep, ◌&&◌, ◌≡◌,
  refl, ap, arith, inl, inr, Bool-cases, Option-cases,
}
use gossip_memo.Base.Sorting.{sort_by, sort_by-All, length-sort_by}
use gossip_memo.Messages.{Message, Tables, is_same}
use gossip_memo.Messages.Batches.{
  is_open, is_unfinished, model_message, load_batch, PendingExtraction, group, group_all,
  pending_extractions, by_need, is_exhausted,
}
use gossip_memo.Messages.Extraction.{eligible_from}
use mathlib.Core.List.{Memᴰ}
use gossip_memo.Base.{All, All-if, keep-All}
use gossip_memo.Messages.Remaining.{budget}

-- A row that an entry of `pending_extractions` stands for
pub record Stands (rows : List Message) (p : PendingExtraction) : Type 0 where
  pub row : Message
  pub inside : Memᴰ row rows
  pub unfinished : is_unfinished row ≡ true
  pub space : row.space_id ≡ p.space_id
  pub batch : row.batch ≡ p.batch_id
  pub attempts : row.attempts ≡ p.attempts
  pub state : row.state ≡ p.state

pub group-Stands :
    (rows : List Message) (row : Message) (ps : List PendingExtraction)
    → Memᴰ row rows
    → is_unfinished row ≡ true
    → All (Stands rows) ps
    → All (Stands rows) (group row ps)
group-Stands rows row [] m u s = (
  record {
    row = row;
    inside = m;
    unfinished = u;
    space = refl;
    batch = refl;
    attempts = refl;
    state = refl;
  },
  tt,
)
group-Stands rows row (p ∷ ps) m u s =
    let rest = group-Stands rows row ps m u s.1 in
    All-if (Stands rows) (p.space_id == row.space_id && is_same p.batch_id row.batch) _ _
      (
        record {
          row = s.0.row;
          inside = s.0.inside;
          unfinished = s.0.unfinished;
          space = s.0.space;
          batch = s.0.batch;
          attempts = s.0.attempts;
          state = s.0.state;
        },
        s.1,
      )
      (s.0, rest)

pub group_all-Stands :
    (rows todo : List Message) (ps : List PendingExtraction)
    → All (λ row. Memᴰ row rows × (is_unfinished row ≡ true)) todo
    → All (Stands rows) ps
    → All (Stands rows) (group_all todo ps)
group_all-Stands rows [] ps a s = s
group_all-Stands rows (row ∷ todo) ps a s =
    group_all-Stands rows todo (group row ps) a.1 (group-Stands rows row ps a.0.0 a.0.1 s)

pub pending_extractions-Stands : (t : Tables) → All (Stands t.messages) (pending_extractions t)
unfolding pending_extractions
pending_extractions-Stands t =
    group_all-Stands t.messages (sort_by by_need (keep is_unfinished t.messages)) []
      (sort_by-All (λ row. Memᴰ row t.messages × (is_unfinished row ≡ true)) by_need
        (keep is_unfinished t.messages)
        (keep-All (λ row. Memᴰ row t.messages × (is_unfinished row ≡ true)) is_unfinished t.messages
          (λ r m u. (m, u))))
      tt

-- The row that makes a batch eligible
pub record Chosen (space batch : ℕ) (rows : List Message) : Type 0 where
  pub row : Message
  pub inside : Memᴰ row rows
  pub is_open : is_open space batch row ≡ true
  pub left : 0 < budget row

Stands-Chosen :
    (space batch : ℕ) (rows : List Message) (p : PendingExtraction)
    → Stands rows p
    → p.batch_id ≡ some batch
    → p.space_id ≡ space
    → is_exhausted p ≡ false
    → Chosen space batch rows
unfolding is_open budget is_exhausted
Stands-Chosen space batch rows p s b e x = record {
  row = s.row;
  inside = s.inside;
  is_open = ground (arith, s.space, s.batch, s.unfinished);
  left = ground (arith, s.attempts, s.state, s.unfinished);
}

pub eligible_from-Chosen :
    (space batch : ℕ) (rows : List Message) (ps : List PendingExtraction) (more : List ℕ)
    → All (Stands rows) ps
    → eligible_from space ps ≡ batch ∷ more
    → Chosen space batch rows
eligible_from-Chosen space batch rows [] more s e = absurd cc
eligible_from-Chosen space batch rows (p ∷ ps) more s e = elim (Option-cases p.batch_id) [
  | inl n ↦ eligible_from-Chosen space batch rows ps more s.1 (ground (arith, e, n))
  | inr (b, h) ↦ elim (Bool-cases (p.space_id == space && not (is_exhausted p))) [
    | inl t ↦
        Stands-Chosen space batch rows p s.0 (ground (arith, e, h, t)) (ground (arith, t))
          (ground (arith, t))
    | inr f ↦ eligible_from-Chosen space batch rows ps more s.1 (ground (arith, e, h, f))
  ]
]

pub keep-nonempty :
    (p : Message → Bool) {row : Message} {rows : List Message}
    → Memᴰ row rows
    → p row ≡ true
    → 0 < length (keep p rows)
keep-nonempty p (Memᴰ.head {x} e) h = ground (arith, ap p e, h)
keep-nonempty p (Memᴰ.tail {x} m) h = ground (arith, keep-nonempty p m h)

pub length-map : {A B : Type 0} (f : A → B) (xs : List A) → length (map f xs) ≡ length xs
length-map f [] = refl
length-map f (x ∷ xs) = ap suc (length-map f xs)

pub map-map :
    {A : Type 0} (f g h : A → A) (xs : List A)
    → ((x : A) → f (g x) ≡ h x)
    → map f (map g xs) ≡ map h xs
map-map f g h [] e = refl
map-map f g h (x ∷ xs) e = cc (e x, map-map f g h xs e)

-- A batch that is chosen has messages to load.
pub load_batch-Chosen :
    (space batch : ℕ) (t : Tables)
    → Chosen space batch t.messages
    → 0 < length (load_batch space batch t)
unfolding load_batch
load_batch-Chosen space batch t c = omega (
  arith,
  length-map model_message
      (sort_by (λ a b. ltb a.ingested_at b.ingested_at) (keep (is_open space batch) t.messages)),
  length-sort_by (λ a b. ltb a.ingested_at b.ingested_at) (keep (is_open space batch) t.messages),
  keep-nonempty (is_open space batch) c.inside c.is_open,
)
