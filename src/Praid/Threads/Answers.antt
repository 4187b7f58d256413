-- ===== src/Praid/Threads/Answers.antt =====
-- Which job the listener forgets when a PPD answers.
use grage_fat.Commons.LinkedList.{LinkedList}
