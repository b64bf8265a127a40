-- ===== src/Common/Texts.antt =====
-- Texts in the order of their code points.
use qa_platform_learning.Common.Tests.{Bool, true, false, String, Ordering}
use Prim.Native.String

abbrev pub text_before : String → String → Bool
text_before s t = elim (String.compare s t) [ Ordering.lt ↦ true | _ ↦ false ]
