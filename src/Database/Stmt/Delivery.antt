-- ===== src/Database/Stmt/Delivery.antt =====
-- The rows that Next delivers, and the rows of the block that the server sent.
use jt400_go.Prelude.{
  ℕ, zero, suc, ◌+◌, ◌<◌, ◌≤◌, ◌≡◌, refl, ap, ◌∙◌, Bool, true, false, not, Option, some, List, [],
  ◌∷◌, ◌==◌, if◌then◌else◌, arith, length, lt→ltb,
}
use jt400_go.Go.{Result, ok, ◌>>=◌, wrap}
use jt400_go.Go.Outcome.{>>=-eq-ok}
use jt400_go.Database.Format.{Field}
use jt400_go.Database.Data.{ResultData, row}
use jt400_go.Database.Value.{Platform, Value}
use jt400_go.Database.Stmt.{World, Settings, Step, StmtError, bad_data, set_cursor, ◌and_then◌}
use jt400_go.Database.Stmt.Cursor.{read_columns, deliver_row, deliver_from, advance, next_row}

-- The Rows with the next row j.
abbrev pub at_row : World → ℕ → ℕ → World
at_row w r j = set_cursor w r (record (w.cursors r) { next = j })

==_refl : (n : ℕ) → (n == n) ≡ true
==_refl n = ground arith

==-true : (a b : ℕ) → a ≡ b → (a == b) ≡ true
==-true a b h = ground arith

if-false {ℓ} : {A : Type ℓ} (b : Bool) (x y : A) → b ≡ false → (if b then x else y) ≡ y
if-false true x y h = cc
if-false false x y h = refl

module _ (p : Platform) (o : Settings p) where
  -- What Next gives for a row: its values, none for NULL.
  abbrev pub RowValues : Type 0
  RowValues = List (Option (Value p))

  -- The values of row j of a block.
  abbrev pub row_values : ResultData → List Field → ℕ → Result StmtError RowValues
  row_values block columns j =
      wrap bad_data (row block j) >>= λ b. read_columns p o block j b 0 0 columns

  -- The rows of a block from row j on, n of them.
  abbrev pub block_rows : ResultData → List Field → ℕ → ℕ → Result StmtError (List RowValues)
  block_rows block columns zero j = ok []
  block_rows block columns (suc n) j =
      row_values block columns j >>= λ v. block_rows block columns n (suc j) >>= λ vs. ok (v ∷ vs)

  -- Calls of Next in a row, with a destination of n elements: what they gave, and the world behind.
  pub data Reads (r n : ℕ) : World → List RowValues → World → Type 0 where
    done : (w : World) → Reads r n w [] w
    read :
        {w w1 w2 : World} {v : RowValues} {vs : List RowValues}
        → next_row p o w r n ≡ (w1, ok v)
        → Reads r n w1 vs w2
        → Reads r n w (v ∷ vs) w2

  -- The Rows r of w stands at a row of this block, with these columns.
  abbrev pub Stands : World → ℕ → ResultData → List Field → Type 0
  Stands w r block columns =
      ((w.cursors r).closed ≡ false)
      × ((w.cursors r).block ≡ some block)
      × ((w.stmts (w.cursors r).st).columns ≡ columns)

  advance_here :
      (w : World) (r : ℕ) (block : ResultData)
      → (w.cursors r).block ≡ some block
      → (w.cursors r).next < block.row_count
      → advance p o 2 w r ≡ (w, ok tt)
  unfolding advance
  advance_here w r block here low = rw (here, lt→ltb _ _ low) refl

  deliver_from_here :
      (w : World) (r : ℕ) (block : ResultData) (columns : List Field) (v : RowValues)
      → block.column_count ≡ length columns
      → row_values block columns (w.cursors r).next ≡ ok v
      → deliver_from p o w r (length columns) columns (some block)
        ≡ (at_row w r ((w.cursors r).next + 1), ok v)
  unfolding deliver_from
  deliver_from_here w r block columns v count values =
      let n = length columns in
      let next = (w.cursors r).next in
      if-false (not (n == n)) _ _ (ap not (==_refl n))
      ∙ (if-false (not (block.column_count == n)) _ _ (ap not (==-true block.column_count n count))
          ∙ ap
              (λ (m : Result StmtError RowValues). (w, m) and_then λ w' vs.
                (set_cursor w' r (record (w.cursors r) { next = next + 1 }), ok vs))
              values)

  deliver_row_here :
      (w : World) (r : ℕ) (block : ResultData) (columns : List Field) (v : RowValues)
      → Stands w r block columns
      → block.column_count ≡ length columns
      → row_values block columns (w.cursors r).next ≡ ok v
      → deliver_row p o w r (length columns) ≡ (at_row w r ((w.cursors r).next + 1), ok v)
  unfolding deliver_row
  deliver_row_here w r block columns v (live, here, described) count values =
      let n = length columns in
      let blk = (w.cursors r).block in
      ap (λ (c : List Field). deliver_from p o w r n c blk) described
      ∙ (ap (deliver_from p o w r n columns) here
          ∙ deliver_from_here w r block columns v count values)

  -- A call of Next on a row of the block.
  next_row_here :
      (w : World) (r : ℕ) (block : ResultData) (columns : List Field) (v : RowValues)
      → Stands w r block columns
      → block.column_count ≡ length columns
      → (w.cursors r).next < block.row_count
      → row_values block columns (w.cursors r).next ≡ ok v
      → next_row p o w r (length columns) ≡ (at_row w r ((w.cursors r).next + 1), ok v)
  unfolding next_row
  next_row_here w r block columns v stands count low values =
      let n = length columns in
      if-false (w.cursors r).closed _ _ stands.0
      ∙ (ap (λ (t : Step (Unit {0})). t and_then λ w' u. deliver_row p o w' r n)
            (advance_here w r block stands.1 low)
          ∙ deliver_row_here w r block columns v stands count values)

  -- The Rows still stands there behind a row.
  at_row-Stands :
      (w : World) (r j : ℕ) (block : ResultData) (columns : List Field)
      → Stands w r block columns
      → Stands (at_row w r j) r block columns
  at_row-Stands w r j block columns (live, here, described) = rw (==_refl r) (live, here, described)

  next-at_row : (w : World) (r j : ℕ) → ((at_row w r j).cursors r).next ≡ j
  next-at_row w r j = rw (==_refl r) refl

  -- The world behind n calls.
  abbrev pub read_on : World → ℕ → ℕ → World
  read_on w r zero = w
  read_on w r (suc n) = read_on (at_row w r ((w.cursors r).next + 1)) r n

  -- A Rows that stands at row j of a block refines the list of the block's rows from j on: if n of them
  -- are left in the block and can be decoded, n calls of Next deliver exactly their values, in the
  -- order of the block, and nothing is sent.
  pub Reads-block_rows :
      (n : ℕ) (w : World) (r : ℕ) (block : ResultData) (columns : List Field)
      (rows : List RowValues)
      → Stands w r block columns
      → block.column_count ≡ length columns
      → (w.cursors r).next + n ≤ block.row_count
      → block_rows block columns n (w.cursors r).next ≡ ok rows
      → Reads r (length columns) w rows (read_on w r n) × ((read_on w r n).session ≡ w.session)
  Reads-block_rows zero w r block columns rows stands count low values =
      let none_left : rows ≡ [] = cc in rw none_left (done w, refl)
  Reads-block_rows (suc n) w r block columns rows stands count low values =
      let j = (w.cursors r).next in
      let (v, e, f) = >>=-eq-ok (row_values block columns j) _ values in
      let (vs, e', f') = >>=-eq-ok (block_rows block columns n (suc j)) _ f in
      let first = next_row_here w r block columns v stands count (omega arith) e in
      let w' = at_row w r (j + 1) in
      let moved : (w'.cursors r).next ≡ suc j = next-at_row w r (j + 1) ∙ omega arith in
      let (rest, same) =
        Reads-block_rows n w' r block columns vs (at_row-Stands w r (j + 1) block columns stands)
          count (omega arith) (rw moved e') in
      let whole : rows ≡ v ∷ vs = cc in rw whole (read first rest, same)
