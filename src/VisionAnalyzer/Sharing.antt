-- ===== src/VisionAnalyzer/Sharing.antt =====
-- Whose picture a session is told of.
use voice_backend.Common.{◌≡◌, refl, sym, subst, Text, false, [], ◌∷◌, Option, none, some, arith}
use voice_backend.VisionAnalyzer.{
  AnalyzeResponse, Analyzer, closed_channel, start_analysis, finish, close_channel, keep_result,
  keep_found, outcome, started, kept, ended, step, run, shown, take_result, get_result,
}

module _ (frame_of : Text → Option Text) (analyze : Text → Option AnalyzeResponse) where
  -- While nothing runs, a session starts an analysis, which finds a description of its picture and ends. Then
  -- the next call, which names no session, takes that picture, and the call after it takes none.
  take_result-two :
      (sid : Text) (r : AnalyzeResponse) (a : Analyzer)
      → a.analyzing ≡ false
      → a.running ≡ []
      → outcome frame_of analyze sid ≡ some r
      → let b = run frame_of analyze a (started sid ∷ kept ∷ ended ∷ []) in
        ((take_result b).1 ≡ shown (some r)) × ((take_result (take_result b).0).1 ≡ shown none)
  unfolding run step start_analysis finish close_channel keep_result keep_found take_result
      get_result
  take_result-two sid r a calm alone found_it =
      let b : Analyzer = record a {
        last_result = some r;
        analyzing = false;
        analysis_done = closed_channel;
      } in
      let same : run frame_of analyze a (started sid ∷ kept ∷ ended ∷ []) ≡ b =
        ground (arith, calm, alone, found_it) in
      subst
        (λ (c : Analyzer).
          ((take_result c).1 ≡ shown (some r)) × ((take_result (take_result c).0).1 ≡ shown none))
        (sym same) (refl, refl)
