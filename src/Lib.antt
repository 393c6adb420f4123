-- ===== src/Lib.antt =====
-- Varar reads Markdown documents ("oaths") as tests: it finds the example paragraphs, matches their
-- sentences against step definitions, and runs the matched steps against the software.
--
-- The modules follow typescript/packages/core/src:
--   Text         string methods (texts are lists of UTF-16 code units)
--   Span         span.ts: offsets, lines and columns
--   Ast          ast.ts: blocks, candidate examples, documents
--   Structurer   structurer.ts: blocks to candidates, orphans and outline
--   Sentences    sentences.ts: the sentences of a block
--   Registry     registry.ts, step-role.ts: step definitions
--   Value        the JavaScript values of handlers
--   Matcher      matcher.ts: ambiguity, the choice of steps. Searched: what a search gives; Search: the
--                matches in a sentence
--   DeepEqual    deep-equal.ts: structural equality
--   Cells        cell-diff.ts, param-diff.ts, doc-string-diff.ts: returned values against the document
--   Diagnostics  diagnostics.ts: what a plan reports
--   Plan         plan.ts: the types of an execution plan. Names: the names of examples; Planned: values
--                with diagnostics; Lifting: offsets in a block to offsets in the source; Blocks: the
--                steps of a text; Headers: header-bound tables; Candidates: one candidate paragraph;
--                Merging: the examples that candidates form; Splicing: references; Documents: `plan`;
--                Groups: a description of the examples that candidates form
--   Execute      execute.ts, failure-anchor.ts: running one example of a plan
--   Hash         hash.ts: the fingerprint of a source
--   TableCells   table-cells.ts: the cells of a table row
--   Drift        drift.ts: paragraphs that were examples and no longer match a step;
--                Lock: the lock file of baselines
--   Expressions  expression-segments.ts: the parts of a step expression, its rendering and differences
--   Results      result.ts, run-diagnostics.ts: what an editor shows of a run; Failures: failure.ts
--   Reference    reference.ts: joining paths; Links: links and slugs; Sections: what links name
--   Unicode      what reference.ts and plan.ts use of the tables of Unicode
--   Scanner      scanner.ts: lines. Patterns: its regular expressions; Blocks: its recognisers; Scan:
--                its loop, and parse.ts; Taken, Division: which lines each block takes
-- Base holds shared names and lemmas. Modules named Tests hold runs of the code.
--
-- A source is scanned into blocks (Scanner), which are grouped into candidates (Structurer). A plan is
-- made of the candidates, whose sentences (Sentences) the matcher resolves against the registry
-- (Matcher, Registry). The executor calls the handlers of the planned steps in the states of their
-- files and compares what they return (Execute, Cells, DeepEqual).
-- The drift detector compares a document and its plan with the baseline of an earlier run (Drift).
--
-- Offsets, lines and columns are natural numbers. A `while` loop or a loop over an array is recursion
-- on the list that is left; the `exec` loop of the matcher has fuel, with a theorem that it suffices.
-- Regular expressions of the expression library, step handlers and formatters are parameters.
-- Handlers are a state-passing host that may change the world around it. What the source uses of
-- String, JSON.stringify and prototypes is a parameter, and so is the Unicode pattern of words.
--
-- Planning returns a value with its diagnostics, the error `empty segmentMap`, or the error that an
-- author's `parse` threw, or it runs out of fuel. The search in a sentence has two rounds more than the
-- sentence has characters, since every round moves `lastIndex` on. The recursion over references has as
-- much fuel as there are references, and one more, since no section is on the chain twice. The loop of
-- the scanner has the number of lines as fuel; where a search or a loop runs out, its result says so.
--
-- What `JSON` does is a parameter that reads what it wrote; the store of the lock file is a state that
-- holds a text or none. Numbers of the lock file that are not natural are not modelled, nor are paths
-- named like integers or like properties of all objects.
--
-- A candidate's row object leaves out names like integers and `__proto__`, which JavaScript treats
-- in its own way. Among the values there are no bigints and no symbols, and no handler changes a state
-- object in place. A frozen error that a step throws, on which no property can be defined, is not
-- modelled. The adapters, the editors and the ports to other languages are not modelled, nor is the
-- text of an error's stack.
pub mod Base
pub mod Text
pub mod Unicode
pub mod Span
pub mod Ast
pub mod Structurer
pub mod Sentences
pub mod Value
pub mod Registry
pub mod Matcher
pub mod DeepEqual
pub mod Cells
pub mod Diagnostics
pub mod Plan
pub mod Execute
pub mod Hash
pub mod Drift
pub mod Scanner
pub mod Results
pub mod Expressions
pub mod TableCells
pub mod Reference
