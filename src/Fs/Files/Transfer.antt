-- ===== src/Fs/Files/Transfer.antt =====
-- Reading, writing and seeking through a descriptor.
use mira_os.Fs.Node.{Node}
use mira_os.Fs.Node.Contents
use mira_os.Fs.Node.Contents.{WroteTo}
use mira_os.Fs.Vfs.{Vfs}
