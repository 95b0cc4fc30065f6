-- ===== src/Tests.antt =====
-- The theorems at concrete inputs: kernel/src/vma.rs in Areas, kernel/src/fd.rs in Files,
-- kernel/src/process.rs and the process calls of kernel/src/syscall.rs in Processes,
-- `resolve_path` in Strings, kernel/src/fs/ramfs.rs in Storage, the file system calls in Calls, and
-- kernel/src/initramfs.rs, kernel/src/elf.rs and kernel/src/spinlock.rs in Images.
mod Areas
mod Files
mod Processes
mod Strings
mod Storage
mod Calls
mod Images
mod Programs
