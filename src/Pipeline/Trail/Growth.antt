-- ===== src/Pipeline/Trail/Growth.antt =====
-- The ways in which a step changes the ledger and the bus, and what they keep.
use hypertrace.Prelude.{String, ◌≡◌, refl, sym, ap, ◌∙◌, some, List, [], ◌∷◌, ◌++◌, All-append}
use mathlib.Core.Path.{subst}
use mathlib.Core.List.{Memᴰ, append_assoc}
use mathlib.Core.List.Memᴰ.{append_right}
use hypertrace.Schemas.{RemediationRequest}
use hypertrace.Tables.{ActionRow}
use hypertrace.Pipeline.Trail.{
  Accounted, Audited, entry, Announced, Announced-later, IsOrder, System, IsSound, IsAppended,
  IsAppended-refl,
}

-- Nothing; a row that is accounted for; such a row with a request that names it; or one after
-- another.
pub data Growth (T : ActionRow → Type 0) : System → System → Type 0 where
  same : (s t : System) → t.ledger ≡ s.ledger → t.bus ≡ s.bus → Growth T s t
  noted :
      (s t : System) (row : ActionRow)
      → Accounted T s.ledger row
      → t.ledger ≡ s.ledger ++ row ∷ []
      → t.bus ≡ s.bus
      → Growth T s t
  ordered :
      (s t : System) (row : ActionRow) (key : String) (m : RemediationRequest)
      → Accounted T s.ledger row
      → row.id ≡ m.action_id
      → IsOrder m.action m.anomaly_id (some m.service) row
      → t.ledger ≡ s.ledger ++ row ∷ []
      → t.bus ≡ s.bus ++ (key, m) ∷ []
      → Growth T s t
  both : (s t u : System) → Growth T s t → Growth T t u → Growth T s u

noted_row-IsSound :
    (T : ActionRow → Type 0) (s t : System) (row : ActionRow)
    → Accounted T s.ledger row
    → t.ledger ≡ s.ledger ++ row ∷ []
    → t.bus ≡ s.bus
    → IsSound T s
    → IsSound T t
noted_row-IsSound T s t row a l b h = record {
  audited = subst (Audited T) (sym l) (entry s.ledger row h.audited a);
  announced = rw (l, b) (Announced-later s.ledger (row ∷ []) s.bus h.announced);
}

ordered_row-IsSound :
    (T : ActionRow → Type 0) (s t : System) (row : ActionRow) (key : String)
    (m : RemediationRequest)
    → Accounted T s.ledger row
    → row.id ≡ m.action_id
    → IsOrder m.action m.anomaly_id (some m.service) row
    → t.ledger ≡ s.ledger ++ row ∷ []
    → t.bus ≡ s.bus ++ (key, m) ∷ []
    → IsSound T s
    → IsSound T t
ordered_row-IsSound T s t row key m a named order l b h =
    let new : Announced (s.ledger ++ row ∷ []) m = record {
      row = row;
      member = append_right s.ledger (Memᴰ.head refl);
      named = named;
      order = order;
    } in
    record {
      audited = subst (Audited T) (sym l) (entry s.ledger row h.audited a);
      announced =
          rw (l, b)
            (All-append (λ e. Announced (s.ledger ++ row ∷ []) e.1) s.bus ((key, m) ∷ [])
              (Announced-later s.ledger (row ∷ []) s.bus h.announced) (new, tt));
    }

pub Growth-IsSound :
    (T : ActionRow → Type 0) (s t : System) → Growth T s t → IsSound T s → IsSound T t
Growth-IsSound T _ _ (same s t l b) h = record {
  audited = subst (Audited T) (sym l) h.audited;
  announced = rw (l, b) h.announced;
}
Growth-IsSound T _ _ (noted s t row a l b) h = noted_row-IsSound T s t row a l b h
Growth-IsSound T _ _ (ordered s t row key m a named order l b) h =
    ordered_row-IsSound T s t row key m a named order l b h
Growth-IsSound T _ _ (both s t u g k) h = Growth-IsSound T t u k (Growth-IsSound T s t g h)

pub IsAppended-trans : (a b c : List ActionRow) → IsAppended a b → IsAppended b c → IsAppended a c
IsAppended-trans a b c g h = record {
  rows = g.rows ++ h.rows;
  same = h.same ∙ ap (λ l. l ++ h.rows) g.same ∙ append_assoc a g.rows h.rows;
}

pub Growth-IsAppended :
    (T : ActionRow → Type 0) (s t : System) → Growth T s t → IsAppended s.ledger t.ledger
Growth-IsAppended T _ _ (same s t l b) =
    subst (IsAppended s.ledger) (sym l) (IsAppended-refl s.ledger)
Growth-IsAppended T _ _ (noted s t row a l b) = record { rows = row ∷ []; same = l }
Growth-IsAppended T _ _ (ordered s t row key m a named order l b) = record {
  rows = row ∷ [];
  same = l;
}
Growth-IsAppended T _ _ (both s t u g k) =
    IsAppended-trans _ _ _ (Growth-IsAppended T s t g) (Growth-IsAppended T t u k)
